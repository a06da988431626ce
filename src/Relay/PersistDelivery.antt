-- ===== src/Relay/PersistDelivery.antt =====
-- The delivery of a persistence answer: what the application responds is what the kernel reads,
-- whatever buffers it reads with.
use flutter_experiments.Common.{
  ℕ, ◌+◌, ◌-◌, ◌^◌, ◌≤◌, ◌<◌, min, ◌≡◌, refl, ap, ◌∙◌, Bytes, true, false, some, List, ℤ, pos,
  as_i32, length, take, drop, arith, length-drop, int_eq, Bool-cases, inl, inr, nat_beq,
  nat_beq_iff,
}
use flutter_experiments.Common.Dict.{lookup, insert, lookup-insert_self}
use flutter_experiments.Relay.State.{PersistSlot, RelayState}
use flutter_experiments.Relay.Net.{write_prefix}
use flutter_experiments.Relay.Persist.{read_result, poll, body}
use flutter_experiments.Relay.Respond.{is_zero, persist_respond}
use flutter_experiments.Relay.Reader.{
  taken, taken_chunk, drop_chunk, Reader, read_many, total, AllSmall, read_many_lem,
}

-- A good answer of which `bs` is unread.
pub record PersistHolds (r : RelayState) (h : ℤ) (bs : Bytes) : Type 0 where
  pub slot : PersistSlot
  pub found : lookup h r.persist ≡ some slot
  pub answered : slot.done ≡ true
  pub good : slot.failed ≡ false
  pub within : slot.offset ≤ length slot.result
  pub unread : drop slot.offset slot.result ≡ bs

-- The branch for an exhausted result agrees with the copy of no bytes.
read_result_lem :
    (s : PersistSlot) (buf : Bytes)
    → s.done ≡ true
    → s.failed ≡ false
    → let n = min (length s.result - s.offset) (length buf) in
      read_result s buf ≡ (
        as_i32 (pos n),
        write_prefix buf (take n (drop s.offset s.result)),
        record s { offset = s.offset + n },
      )
unfolding read_result as_i32 write_prefix
read_result_lem s buf d f = elim (Bool-cases (nat_beq (length s.result - s.offset) 0)) [
  | inl empty ↦
      let none_left : length s.result - s.offset ≡ 0 = (nat_beq_iff _ 0).0 empty in
      rw (d, f, read_result, empty, none_left) (ground arith)
  | inr more ↦ rw (d, f, read_result, more)
]

body_lem :
    (r : RelayState) (h : ℤ) (s : PersistSlot) (buf : Bytes)
    → lookup h r.persist ≡ some s
    → body r h buf ≡ (
      (read_result s buf).0,
      (read_result s buf).1,
      record r { persist = insert h (read_result s buf).2 r.persist },
    )
unfolding body
body_lem r h s buf e = rw (e, body)

module _ (r : RelayState) (h : ℤ) (bs buf : Bytes) where
  pub body_taken :
      length buf < 2 ^ 31
      → PersistHolds r h bs
      → taken (body r h buf).0 (body r h buf).1 ≡ take (length buf) bs
  body_taken small held =
      let s = held.slot in
      let n : ℕ = min (length s.result - s.offset) (length buf) in
      rw (body_lem r h s buf held.found, read_result_lem s buf held.answered held.good)
        (taken_chunk (drop s.offset s.result) buf n (omega (arith, length-drop s.offset s.result))
            small
          ∙ ap (take (length buf)) held.unread)

  pub body_kept : PersistHolds r h bs → PersistHolds (body r h buf).2 h (drop (length buf) bs)
  body_kept held =
      let s = held.slot in
      let n : ℕ = min (length s.result - s.offset) (length buf) in
      rw (body_lem r h s buf held.found, read_result_lem s buf held.answered held.good)
        (record {
          slot = record s { offset = s.offset + n };
          found = lookup-insert_self h _ r.persist;
          answered = held.answered;
          good = held.good;
          within = let w : s.offset ≤ length s.result = held.within in omega arith;
          unread = drop_chunk s.result buf s.offset n refl ∙ ap (drop (length buf)) held.unread;
        })

abbrev pub persist_reader : Reader
persist_reader = record {
  read = body;
  Holds = PersistHolds;
  taken-read = body_taken;
  read-Holds = body_kept;
}

module _ (r : RelayState) (h status : ℤ) (s : PersistSlot) (result : Bytes)
    (known : lookup (as_i32 h) r.persist ≡ some s) (good : is_zero status ≡ false) where
  abbrev answered : PersistSlot
  answered = record s { done = true; failed = is_zero status; result = result; offset = 0 }

  answer_stored : lookup (as_i32 h) (persist_respond r h status result).1.persist ≡ some answered
  unfolding persist_respond
  answer_stored = rw (known, persist_respond) (lookup-insert_self (as_i32 h) answered r.persist)

  answer_held : PersistHolds (persist_respond r h status result).1 (as_i32 h) result
  answer_held = record {
    slot = answered;
    found = answer_stored;
    answered = refl;
    good = good;
    within = omega arith;
    unread = refl;
  }

  -- After a good answer to a known handle (a status that is not 0), a poll returns 1, and reads through
  -- any row of buffers of less than 2^31 bytes bring the result in order, as much of it as they hold.
  pub persist_respond_delivers :
      (bufs : List Bytes)
      → AllSmall bufs
      → let r' = (persist_respond r h status result).1 in
        (poll r' (as_i32 h) ≡ pos 1)
        × ((read_many body r' (as_i32 h) bufs).0 ≡ take (total bufs) result)
  unfolding poll
  persist_respond_delivers bufs smalls = (
    rw (answer_stored, poll, good),
    (read_many_lem persist_reader bufs _ (as_i32 h) result smalls answer_held).0,
  )
