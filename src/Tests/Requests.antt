-- ===== src/Tests/Requests.antt =====
-- The byte formats of buf.rs and relay.rs at concrete values.
use flutter_experiments.Common.{
  ◌≡◌, refl, Bytes, some, List, [], ◌∷◌, ◌++◌, pos, minus_one, arith, int_eq,
}
use flutter_experiments.Common.Dict.{lookup}
use flutter_experiments.Error.{ok}
use flutter_experiments.Utf8.{from_utf8, is_utf8}
use flutter_experiments.Buf.Env.{
  parse_env_blob, read_pair, read_text, prepend, encode_env, parse-encode_env,
}
use flutter_experiments.Buf.Loop.{parse_env_blob-loop}
use flutter_experiments.Relay.State.{EgressRelayEvent, new, alloc_handle, default_persist}
use flutter_experiments.Relay.HostCall.{split_request}
use flutter_experiments.Relay.Persist.{parse_request, start}
use flutter_experiments.Relay.Request.{
  encode_request, parse-encode_request, Started, start_known, start_unknown_leaks,
  split_request-append,
}

-- "é!" as UTF-8.
abbrev word : Bytes
word = 0xC3 ∷ 0xA9 ∷ 0x21 ∷ []

abbrev env : List (Bytes × Bytes)
env = (65 ∷ [], word) ∷ ([], 66 ∷ []) ∷ []

parse-encode_env_example : parse_env_blob (encode_env env) ≡ ok env
unfolding is_utf8
parse-encode_env_example = parse-encode_env env (
  ((omega arith, tt), refl),
  ((omega arith, (omega arith, (omega arith, tt))), refl),
  ((tt, refl), ((omega arith, tt), refl), tt),
)

parse-encode_request_example :
    parse_request (encode_request 1 (107 ∷ []) (1 ∷ 2 ∷ [])) ≡ some (1, 107 ∷ [], 1 ∷ 2 ∷ [])
parse-encode_request_example =
    parse-encode_request 1 (107 ∷ []) (1 ∷ 2 ∷ []) (omega arith) (omega arith)

start_known_example :
    let h = (alloc_handle new).0 in
    Started new (encode_request 0 word (5 ∷ [])) (EgressRelayEvent.persist_get h word) (pos 1)
    × Started new
        (encode_request 1 word (5 ∷ []))
        (EgressRelayEvent.persist_put h word (5 ∷ []))
        (pos 1)
    × Started new (encode_request 2 word (5 ∷ [])) (EgressRelayEvent.persist_delete h word) (pos 1)
    × Started new (encode_request 3 word (5 ∷ [])) (EgressRelayEvent.persist_list h word) (pos 1)
start_known_example = start_known new word (5 ∷ []) (pos 1) (omega arith)

start_unknown_leaks_example :
    let (status, r') = start new (encode_request 9 (107 ∷ []) []) in
    (status ≡ minus_one)
    × (r'.events ≡ new.events)
    × (r'.next ≡ (alloc_handle new).1.next)
    × (lookup (alloc_handle new).0 r'.persist ≡ some default_persist)
start_unknown_leaks_example =
    start_unknown_leaks new 9 (107 ∷ []) [] (omega arith) (omega arith) (omega arith)

split_request-append_example : split_request (word ++ 0 ∷ 5 ∷ []) ≡ (word, 5 ∷ [])
unfolding is_utf8
split_request-append_example =
    split_request-append word (5 ∷ []) refl (omega arith, (omega arith, (omega arith, tt)))

parse_env_blob-loop_example :
    (parse_env_blob [] ≡ ok [])
    × (parse_env_blob (65 ∷ 0 ∷ 66 ∷ 0 ∷ []) ≡ prepend (65 ∷ [], 66 ∷ []) (parse_env_blob []))
unfolding read_pair read_text from_utf8 is_utf8
parse_env_blob-loop_example = parse_env_blob-loop 65 (0 ∷ 66 ∷ 0 ∷ [])
