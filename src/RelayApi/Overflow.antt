-- ===== src/RelayApi/Overflow.antt =====
-- relay.rs `aos_vm_relay_next` and buf.rs `fill_buf` together: what becomes of an event whose frame
-- does not fit the caller's buffer.
use flutter_experiments.Common.{
  ℕ, ◌<◌, ◌≡◌, ◌≢◌, refl, Bytes, Bool, false, none, some, List, [], ◌∷◌, minus_one, length, arith,
}
use flutter_experiments.Error.{ok}
use flutter_experiments.Lock.{lock}
use flutter_experiments.Buf.{AosBuf, fill, fill_buf}
use flutter_experiments.Relay.State.{EgressRelayEvent, RelayState}
use flutter_experiments.Relay.Wire.{WireRelayEvent, frame_of}
use flutter_experiments.Relay.Wire
use flutter_experiments.Relay.Order.{nothing, popped, pop_event-Popped}
use flutter_experiments.Table.{Vm, Process, clear_error, find_vm, put_vm, with_vm, with_relay}
use flutter_experiments.RelayApi.{give_frame, pop_event, aos_vm_relay_next}

fill_too_small :
    (b : AosBuf) (bytes : Bytes)
    → b.cap < length bytes
    → fill b bytes ≡ (minus_one, record b { len = length bytes })
unfolding fill
fill_too_small b [] small = ground arith
fill_too_small b (x ∷ xs) small = ground arith

module _ {H : Type 0} (encode : WireRelayEvent → Bytes) where
  -- The process after the relay of a live machine was replaced.
  abbrev pub with_new_relay : Process H → ℕ → Vm H → RelayState → Process H
  with_new_relay p vm entry r =
      put_vm (clear_error p) vm (record entry { relay = record (entry.relay) { value = r } })

  pop_event_found :
      (p : Process H) (vm : ℕ) (entry : Vm H) (r : RelayState) (only : Bool)
      → find_vm (clear_error p) vm ≡ ok entry
      → lock entry.relay ≡ some r
      → pop_event encode (clear_error p) vm only ≡ (
        ok (Wire.pop_event encode r only).0,
        with_new_relay p vm entry (Wire.pop_event encode r only).1,
      )
  unfolding pop_event with_relay with_vm
  pop_event_found p vm entry r only found locked =
      rw (found, pop_event, with_relay, with_vm, locked)

  next_too_small :
      (p : Process H) (vm : ℕ) (entry : Vm H) (r : RelayState) (b : AosBuf) (bytes : Bytes)
      → find_vm (clear_error p) vm ≡ ok entry
      → lock entry.relay ≡ some r
      → (Wire.pop_event encode r false).0 ≡ some bytes
      → b.cap < length bytes
      → aos_vm_relay_next encode p vm (some b) ≡ (
        minus_one,
        some (record b { len = length bytes }),
        with_new_relay p vm entry (Wire.pop_event encode r false).1,
      )
  unfolding aos_vm_relay_next fill_buf give_frame put_vm
  next_too_small p vm entry r b bytes found locked out small = rw (
    pop_event_found p vm entry r false found locked,
    out,
    give_frame,
    fill_too_small b bytes small,
  )

  -- On a live machine with a usable relay, where the frame of the next event is longer than the
  -- buffer: the call fails with the size that is needed, leaves no error text, and the event is gone
  -- from the queue, which keeps the events behind it.
  pub aos_vm_relay_next_too_small :
      (p : Process H) (vm : ℕ) (entry : Vm H) (r : RelayState) (b : AosBuf) (ev : EgressRelayEvent)
      (rest : List EgressRelayEvent)
      → find_vm (clear_error p) vm ≡ ok entry
      → lock entry.relay ≡ some r
      → r.events ≡ ev ∷ rest
      → b.cap < length (encode (frame_of ev))
      → let (code, out, q) = aos_vm_relay_next encode p vm (some b) in
        (code ≡ minus_one)
        × (out ≡ some (record b { len = length (encode (frame_of ev)) }))
        × (q.last_error ≡ none)
        × ((r' : RelayState) × (q ≡ with_new_relay p vm entry r') × (r'.events ≡ rest))
  unfolding put_vm clear_error
  aos_vm_relay_next_too_small p vm entry r b ev rest found locked queued small =
      elim (pop_event-Popped encode r false) [
        | nothing empty out same ↦ absurd (nonempty empty)
        | popped ev' out lane kept ↦
            let (same, gone) = heads ev' lane in
            rw
              (next_too_small p vm entry r b (encode (frame_of ev)) found locked (rw (same) out)
                small)
              (refl, refl, refl, ((Wire.pop_event encode r false).1, refl, gone))
      ]
    where
      nonempty : r.events ≢ []
      nonempty e = cc

      heads :
          (ev' : EgressRelayEvent)
          → r.events ≡ ev' ∷ (Wire.pop_event encode r false).1.events
          → (ev ≡ ev') × ((Wire.pop_event encode r false).1.events ≡ rest)
      heads ev' lane = (cc, cc)
