-- ===== src/Tests/Machine.antt =====
-- A small operating system to run the services on: a clock, one file, a plugin that accepts
-- connections from a given time on, and the processes killed so far.
use rules_systemtest.Prelude.{
  ℕ, ◌+◌, none, List, [], ◌∷◌, arith, leb, ltb, ◌==◌, string_eq, if◌then◌else◌,
}
use rules_systemtest.Result.{Result, ok, err, Error}
use rules_systemtest.Os.{Os}
use rules_systemtest.Proto.{Bytes, CreateProgress, FixtureDescription}
use rules_systemtest.Fixture.{Codec, IsBytes}
use rules_systemtest.PluginClient.Connects.{IsClock}

pub record Box : Type 0 where
  pub time : ℕ
  pub killed : List ℕ

-- A plugin that serves from a time on and sends a stream, and the bytes of its file.
abbrev pub box_os : ℕ → List (Result Error CreateProgress) → Os
box_os ready stream = record {
  World = Box;
  Child = ℕ;
  ExitStatus = ℕ;
  Endpoint = Unit {0};
  Channel = Unit {0};
  parent = λ _. none;
  join = λ a b. b;
  debug_path = λ p. p;
  display_status = λ _. "exit status: 1";
  debug_infos = λ _. "[]";
  create_dir_all = λ _ w. (ok tt, w);
  remove_file = λ _ w. (ok tt, w);
  read = λ p w. (if p == "plugin" then ok (1 ∷ 2 ∷ []) else err ("no such file" ∷ []), w);
  spawn = λ _ _ w. (ok 7, w);
  try_wait = λ _ w. (ok none, w);
  start_kill = λ c w. record w { killed = c ∷ w.killed };
  now = λ w. w.time;
  sleep = λ d w. record w { time = w.time + d };
  endpoint = λ _. ok tt;
  connect_with_connector =
      λ _ _ w. (if leb ready w.time then ok tt else err ("connection refused" ∷ []), w);
  describe_plugin = λ _ w. (ok (record { responses = [] }), w);
  create_fixture = λ _ _ w. (ok stream, w);
}

pub box_clock :
    (ready : ℕ) (stream : List (Result Error CreateProgress)) → IsClock (box_os ready stream)
box_clock ready stream = record {
  sleeps = λ d w. omega arith;
  connects = λ e path w. omega arith;
  polls = λ child w. omega arith;
}

-- A digest that keeps byte strings as they are.
unfoldable pub low_bytes : Bytes → Bytes
low_bytes [] = []
low_bytes (b ∷ bs) = (if ltb b 256 then b else 0) ∷ low_bytes bs

pub low_bytes-IsBytes : (b : Bytes) → IsBytes (low_bytes b)
unfolding low_bytes
low_bytes-IsBytes [] = tt
low_bytes-IsBytes (b ∷ bs) = (ground arith, low_bytes-IsBytes bs)

-- An encoding that tells one fixture from all others.
unfoldable pub encode_redis : FixtureDescription → Bytes
encode_redis d = if d.impl_id == "redis" then 1 ∷ [] else 2 ∷ []

abbrev pub box_codec : Codec
box_codec = record {
  digest = low_bytes;
  encode_to_vec = encode_redis;
  digest-IsBytes = low_bytes-IsBytes;
}
