-- ===== src/Relay/HttpDelivery.antt =====
-- The delivery of an HTTP answer: what the application responds is what the kernel polls and reads,
-- whatever buffers it reads with.
use flutter_experiments.Common.{
  ℕ, ◌+◌, ◌-◌, ◌^◌, ◌≤◌, ◌<◌, min, ◌≡◌, refl, ap, ◌∙◌, Bytes, true, false, some, List, ℤ, pos,
  as_i32, length, take, drop, arith, length-drop, int_eq,
}
use flutter_experiments.Common.Dict.{lookup, insert, lookup-insert_self}
use flutter_experiments.Relay.State.{HttpSlot, RelayState}
use flutter_experiments.Relay.Net.{write_prefix, read_body, http_poll, http_body}
use flutter_experiments.Relay.Respond.{is_zero, http_respond}
use flutter_experiments.Relay.Reader.{
  taken, taken_chunk, drop_chunk, Reader, read_many, total, AllSmall, read_many_lem,
}

-- A good answer of which `bs` is unread.
pub record HttpHolds (r : RelayState) (h : ℤ) (bs : Bytes) : Type 0 where
  pub slot : HttpSlot
  pub found : lookup h r.http ≡ some slot
  pub answered : slot.done ≡ true
  pub good : slot.failed ≡ false
  pub within : slot.body_pos ≤ length slot.body
  pub unread : drop slot.body_pos slot.body ≡ bs

read_body_lem :
    (s : HttpSlot) (buf : Bytes)
    → s.done ≡ true
    → s.failed ≡ false
    → s.body_pos ≤ length s.body
    → let n = min (length s.body - s.body_pos) (length buf) in
      read_body s buf ≡ (
        as_i32 (pos n),
        write_prefix buf (take n (drop s.body_pos s.body)),
        record s { body_pos = s.body_pos + n },
      )
unfolding read_body
read_body_lem s buf d f w =
    let e : min s.body_pos (length s.body) ≡ s.body_pos = omega arith in rw (d, f, e)

http_body_lem :
    (r : RelayState) (h : ℤ) (s : HttpSlot) (buf : Bytes)
    → lookup h r.http ≡ some s
    → http_body r h buf ≡ (
      (read_body s buf).0,
      (read_body s buf).1,
      record r { http = insert h (read_body s buf).2 r.http },
    )
unfolding http_body
http_body_lem r h s buf e = rw (e, http_body)

http_poll_lem :
    (r : RelayState) (h : ℤ) (s : HttpSlot) (buf : Bytes)
    → lookup h r.http ≡ some s
    → s.done ≡ true
    → s.failed ≡ false
    → http_poll r h buf ≡ (
      as_i32 (pos (min (length s.head) (length buf))),
      write_prefix buf (take (min (length s.head) (length buf)) s.head),
    )
unfolding http_poll
http_poll_lem r h s buf e d f = rw (e, http_poll, d, f)

module _ (r : RelayState) (h : ℤ) (bs buf : Bytes) where
  pub http_taken :
      length buf < 2 ^ 31
      → HttpHolds r h bs
      → taken (http_body r h buf).0 (http_body r h buf).1 ≡ take (length buf) bs
  http_taken small held =
      let s = held.slot in
      let n : ℕ = min (length s.body - s.body_pos) (length buf) in
      rw
        (
          http_body_lem r h s buf held.found,
          read_body_lem s buf held.answered held.good held.within,
        )
        (taken_chunk (drop s.body_pos s.body) buf n (omega (arith, length-drop s.body_pos s.body))
            small
          ∙ ap (take (length buf)) held.unread)

  pub http_kept : HttpHolds r h bs → HttpHolds (http_body r h buf).2 h (drop (length buf) bs)
  http_kept held =
      let s = held.slot in
      let n : ℕ = min (length s.body - s.body_pos) (length buf) in
      rw
        (
          http_body_lem r h s buf held.found,
          read_body_lem s buf held.answered held.good held.within,
        )
        (record {
          slot = record s { body_pos = s.body_pos + n };
          found = lookup-insert_self h _ r.http;
          answered = held.answered;
          good = held.good;
          within = let w : s.body_pos ≤ length s.body = held.within in omega arith;
          unread = drop_chunk s.body buf s.body_pos n refl ∙ ap (drop (length buf)) held.unread;
        })

abbrev pub http_reader : Reader
http_reader = record {
  read = http_body;
  Holds = HttpHolds;
  taken-read = http_taken;
  read-Holds = http_kept;
}

module _ (r : RelayState) (h status : ℤ) (s : HttpSlot) (head body : Bytes)
    (known : lookup (as_i32 h) r.http ≡ some s) (good : is_zero status ≡ false) where
  abbrev answered : HttpSlot
  answered = record s {
    done = true;
    failed = is_zero status;
    head = head;
    body = body;
    body_pos = 0;
  }

  answer_stored : lookup (as_i32 h) (http_respond r h status head body).1.http ≡ some answered
  unfolding http_respond
  answer_stored = rw (known, http_respond) (lookup-insert_self (as_i32 h) answered r.http)

  answer_held : HttpHolds (http_respond r h status head body).1 (as_i32 h) body
  answer_held = record {
    slot = answered;
    found = answer_stored;
    answered = refl;
    good = good;
    within = omega arith;
    unread = refl;
  }

  -- After a good answer to a known handle (a status that is not 0), a poll with a buffer of less than
  -- 2^31 bytes returns the head, as much of it as the buffer holds, and reads through any row of such
  -- buffers bring the body in order, as much of it as the buffers hold.
  pub http_respond_delivers :
      (buf : Bytes) (bufs : List Bytes)
      → length buf < 2 ^ 31
      → AllSmall bufs
      → let r' = (http_respond r h status head body).1 in
        let answer = http_poll r' (as_i32 h) buf in
        (taken answer.0 answer.1 ≡ take (length buf) head)
        × ((read_many http_body r' (as_i32 h) bufs).0 ≡ take (total bufs) body)
  http_respond_delivers buf bufs small smalls = (
    rw
        (http_poll_lem (http_respond r h status head body).1 (as_i32 h) answered buf answer_stored
          refl good)
        (taken_chunk head buf (min (length head) (length buf)) refl small),
    (read_many_lem http_reader bufs _ (as_i32 h) body smalls answer_held).0,
  )
