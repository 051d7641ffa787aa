-- ===== src/Os.antt =====
-- What the services take from the operating system, tokio and tonic, as one interface over an
-- abstract world. Nothing of it stands under src/: its operations are parameters of the model.
use rules_systemtest.Prelude.{ℕ, String, List, Option}
use rules_systemtest.Result.{Result, Error}
use rules_systemtest.Io.{Io}
use rules_systemtest.Proto.{
  Bytes, DescribeResponses, CreateRequest, CreateProgress, FixtureElementStatusInfo,
}

pub record Os : Type 1 where
  pub World : Type 0
  pub Child : Type 0
  pub ExitStatus : Type 0
  pub Endpoint : Type 0
  pub Channel : Type 0
  -- `Path::parent`, `Path::join` and the `{:?}` and `{}` of values
  pub parent : String → Option String
  pub join : String → String → String
  pub debug_path : String → String
  pub display_status : ExitStatus → String
  pub debug_infos : List FixtureElementStatusInfo → String
  -- `std::fs`
  pub create_dir_all : String → Io World (Unit {0})
  pub remove_file : String → Io World (Unit {0})
  pub read : String → Io World Bytes
  -- `tokio::process`
  pub spawn : String → List String → Io World Child
  pub try_wait : Child → Io World (Option ExitStatus)
  pub start_kill : Child → World → World
  -- `tokio::time`, in milliseconds
  pub now : World → ℕ
  pub sleep : ℕ → World → World
  -- `tonic::transport` over a Unix domain socket
  pub endpoint : String → Result Error Endpoint
  pub connect_with_connector : Endpoint → String → Io World Channel
  -- The calls of the generated client. A stream is the list of what `message` yields until it ends.
  pub describe_plugin : Channel → Io World DescribeResponses
  pub create_fixture : Channel → CreateRequest → Io World (List (Result Error CreateProgress))
