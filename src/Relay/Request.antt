-- ===== src/Relay/Request.antt =====
-- The byte formats of the requests that the kernel hands over.
use flutter_experiments.Common.{
  ℕ, ◌+◌, ◌/◌, ◌%◌, ◌^◌, ◌≤◌, ◌<◌, ◌≡◌, refl, sym, ap, ap₂, ◌∙◌, drop-drop, Bytes, true, false,
  none, some, [], ◌∷◌, ◌++◌, ℤ, minus_one, length, take, drop, arith, length-append, int_eq,
  if◌then◌else◌, ltb, take-append_exact, drop-append_exact, nat_beq, ◌==◌, HasNoNul,
}
use flutter_experiments.Common.Dict.{lookup, lookup-insert, lookup-insert_self}
use flutter_experiments.Relay.State.{default_persist, EgressRelayEvent, RelayState, alloc_handle}
use flutter_experiments.Utf8.{is_utf8, from_utf8_lossy}
use flutter_experiments.Utf8.Laws.{from_utf8_lossy-valid}
use flutter_experiments.Relay.HostCall.{nul_position, split_request}
use flutter_experiments.Relay.Persist.{u32_le, parse_request, event_of, begin, start}

-- The four bytes of a `u32`, least significant first.
abbrev pub le_bytes : ℕ → Bytes
le_bytes n = (n % 2 ^ 8) ∷ (n / 2 ^ 8 % 2 ^ 8) ∷ (n / 2 ^ 16 % 2 ^ 8) ∷ (n / 2 ^ 24) ∷ []

abbrev pub encode_request : ℕ → Bytes → Bytes → Bytes
encode_request op key value = le_bytes op ++ (le_bytes (length key) ++ (key ++ value))

-- What `parse_request` returns, with the two length checks passed.
parse_request_lem :
    (req : Bytes) (op len : ℕ)
    → u32_le req 0 ≡ op
    → u32_le req 4 ≡ len
    → 8 + len ≤ length req
    → parse_request req ≡ some (op, take len (drop 8 req), drop (8 + len) req)
unfolding parse_request
parse_request_lem req op len e f h =
    let a : ltb (length req) 8 ≡ false = ground arith in
    let b : ltb (length req) (8 + len) ≡ false = ground arith in rw (f, e, a, b)

u32_le-le_bytes : (n : ℕ) → n < 2 ^ 32 → (rest : Bytes) → u32_le (le_bytes n ++ rest) 0 ≡ n
u32_le-le_bytes n h rest = omega arith

-- Parsing undoes the documented layout `[op: u32 LE][key_len: u32][key][value…]`, for operations and
-- key lengths below 2^32.
pub parse-encode_request :
    (op : ℕ) (key value : Bytes)
    → op < 2 ^ 32
    → length key < 2 ^ 32
    → parse_request (encode_request op key value) ≡ some (op, key, value)
parse-encode_request op key value h k =
    parse_request_lem (encode_request op key value) op (length key)
      (u32_le-le_bytes op h (le_bytes (length key) ++ (key ++ value)))
      (u32_le-le_bytes (length key) k (key ++ value)) (omega (arith, length-append key value))
    ∙ ap some (
        ap₂ parts (take-append_exact key value) (
          sym (drop-drop 8 (length key) (encode_request op key value))
          ∙ drop-append_exact key value))
  where
    parts : Bytes → Bytes → ℕ × Bytes × Bytes
    parts a b = (op, a, b)

-- What starting a request gives, seen at the handle `k`: a fresh handle, an empty slot under it and the
-- event at the end of the queue, with the queue before it and the other persist slots as they were.
abbrev pub Started : RelayState → Bytes → EgressRelayEvent → ℤ → Type 0
Started r req ev k =
    let (status, r') = start r req in
    (status ≡ (alloc_handle r).0)
    × (r'.events ≡ r.events ++ ev ∷ [])
    × (lookup k r'.persist
        ≡ (if (alloc_handle r).0 == k then some default_persist else lookup k r.persist))

start-Started :
    (r : RelayState) (req key value : Bytes) (op : ℕ) (ev : EgressRelayEvent) (k : ℤ)
    → parse_request req ≡ some (op, key, value)
    → event_of op (alloc_handle r).0 key value ≡ some ev
    → Started r req ev k
unfolding start begin
start-Started r req key value op ev k p e = (
  rw (p, start, e, begin),
  rw (p, start, e, begin),
  rw (p, start, e, begin) (lookup-insert (alloc_handle r).0 k default_persist r.persist),
)

-- The requests `[op: u32 LE][key_len: u32][key][value…]` with a key shorter than 2^32 bytes: operation
-- 0 queues a get of the key, 1 a put of the value under the key, 2 a delete and 3 a list of the key.
-- Each gets a fresh handle with an empty slot, its event stands at the end of the queue, and the queue
-- before it and the other persist slots are as they were.
pub start_known :
    (r : RelayState) (key value : Bytes) (k : ℤ)
    → length key < 2 ^ 32
    → let h = (alloc_handle r).0 in
      Started r (encode_request 0 key value) (EgressRelayEvent.persist_get h key) k
      × Started r (encode_request 1 key value) (EgressRelayEvent.persist_put h key value) k
      × Started r (encode_request 2 key value) (EgressRelayEvent.persist_delete h key) k
      × Started r (encode_request 3 key value) (EgressRelayEvent.persist_list h key) k
unfolding event_of
start_known r key value k short = (
  start-Started r _ key value 0 _ k (parse-encode_request 0 key value (omega arith) short) refl,
  start-Started r _ key value 1 _ k (parse-encode_request 1 key value (omega arith) short) refl,
  start-Started r _ key value 2 _ k (parse-encode_request 2 key value (omega arith) short) refl,
  start-Started r _ key value 3 _ k (parse-encode_request 3 key value (omega arith) short) refl,
)

event_of_unknown : (op : ℕ) (h : ℤ) (key value : Bytes) → 3 < op → event_of op h key value ≡ none
unfolding event_of
event_of_unknown op h key value big = ground arith

-- A well-formed request with an operation above 3 fails with -1 and queues nothing, but it has used up
-- a handle and leaves an empty slot under it.
pub start_unknown_leaks :
    (r : RelayState) (op : ℕ) (key value : Bytes)
    → op < 2 ^ 32
    → length key < 2 ^ 32
    → 3 < op
    → let (status, r') = start r (encode_request op key value) in
      (status ≡ minus_one)
      × (r'.events ≡ r.events)
      × (r'.next ≡ (alloc_handle r).1.next)
      × (lookup (alloc_handle r).0 r'.persist ≡ some default_persist)
unfolding start begin
start_unknown_leaks r op key value small short big =
    let p = parse-encode_request op key value small short in
    let e = event_of_unknown op (alloc_handle r).0 key value big in
    (
      rw (p, start, e, begin),
      rw (p, start, e, begin),
      rw (p, start, e, begin),
      rw (p, start, e, begin) (lookup-insert_self (alloc_handle r).0 default_persist r.persist),
    )

nul_position-append :
    (name body : Bytes) → HasNoNul name → nul_position (name ++ (0 ∷ body)) ≡ length name
nul_position-append [] body h = refl
nul_position-append (b ∷ name) body h =
    let test : nat_beq b 0 ≡ false = ground arith in
    rw test (omega (arith, nul_position-append name body h.1))

split_request_lem :
    (req : Bytes) (n : ℕ)
    → nul_position req ≡ n
    → n < length req
    → split_request req ≡ (from_utf8_lossy (take n req), drop (n + 1) req)
unfolding split_request
split_request_lem req n e h =
    let inside : ltb n (length req) ≡ true = ground arith in rw (e, inside)

-- A host call's request `name NUL body` is split into the name and the body, for a name in UTF-8
-- without NUL bytes; the body may hold any bytes.
pub split_request-append :
    (name body : Bytes)
    → is_utf8 name ≡ true
    → HasNoNul name
    → split_request (name ++ (0 ∷ body)) ≡ (name, body)
split_request-append name body valid clean =
    split_request_lem (name ++ (0 ∷ body)) (length name) (nul_position-append name body clean)
      (omega (arith, length-append name (0 ∷ body)))
    ∙ ap₂ pair
        (ap from_utf8_lossy (take-append_exact name (0 ∷ body)) ∙ from_utf8_lossy-valid name valid)
        (sym (drop-drop (length name) 1 (name ++ (0 ∷ body)))
          ∙ ap (drop 1) (drop-append_exact name (0 ∷ body)))
  where
    pair : Bytes → Bytes → Bytes × Bytes
    pair a b = (a, b)
