-- ===== src/Tty/Output.antt =====
-- tty.rs `aos_vm_take_output`: what a reader of the output gets, and what stays for the next call.
use flutter_experiments.Common.{
  ℕ, ◌≤◌, min, ◌≡◌, refl, sym, ap, ◌∙◌, inl, inr, Bytes, Bool, true, false, Option, none, some, [],
  ◌∷◌, ◌++◌, pos, as_i32, length, take, drop, is_empty, arith, if◌then◌else◌, ltb, nat_eq, nat_beq,
  not, ◌&&◌, Bool-cases, length-take, take-min, drop-min, drop_all,
}
use flutter_experiments.Error.{ok}
use flutter_experiments.Lock.{unlocked}
use flutter_experiments.Buf.{copy_into}
use flutter_experiments.Table.{Vm, Process, clear_error, find_vm, put_vm, with_vm, drain_arc}
use flutter_experiments.Table.Access.{put_vm-last_error, with_vm_found, find_vm-put_vm}
use flutter_experiments.Tty.Take.{
  drain_output, put_back, give_output, hand_output, aos_vm_take_output,
}

append_nil : (bs : Bytes) → bs ++ [] ≡ bs
append_nil [] = refl
append_nil (b ∷ bs) = ap (◌∷◌ b) (append_nil bs)

cap_nonzero : (cap : ℕ) → 1 ≤ cap → nat_beq cap 0 ≡ false
cap_nonzero cap room = ground arith

-- The copy of what fits.
written :
    (bytes region : Bytes) (cap : ℕ)
    → (if ltb 0 (min (length bytes) cap)
        then copy_into region (take (min (length bytes) cap) bytes)
        else region)
      ≡ take cap bytes ++ drop (min (length bytes) cap) region
unfolding copy_into
written bytes region cap = elim (Bool-cases (ltb 0 (min (length bytes) cap))) [
  | inl room ↦
      rw (room, length-take, take-min) (ap (λ n. take cap bytes ++ drop n region) (omega arith))
  | inr full ↦
      let none_fits : min (length bytes) cap ≡ 0 = ground arith in
      rw (full, sym (take-min cap bytes), none_fits) refl
]

module _ {H : Type 0} where
  -- The output that waits in a machine: the combined sink, or the streams' one after the other.
  unfoldable pub pending : Vm H → Bytes
  pending entry =
      if is_empty entry.out.value
      then entry.out_stdout.value ++ entry.out_stderr.value ++ entry.out_log.value
      else entry.out.value

  -- No sink's lock is poisoned.
  unfoldable pub usable : Vm H → Bool
  usable entry =
      not entry.out.poisoned
      && not entry.out_stdout.poisoned
      && not entry.out_stderr.poisoned
      && not entry.out_log.poisoned

  pub drained : Vm H → Bytes → Vm H
  drained entry rest = record entry {
    out = unlocked rest;
    out_stdout = unlocked [];
    out_stderr = unlocked [];
    out_log = unlocked [];
  }

  drain_output_lem :
      (entry : Vm H) → usable entry ≡ true → drain_output entry ≡ (pending entry, drained entry [])
  unfolding drain_output drain_arc pending drained usable
  drain_output_lem entry fine = ground arith

  module _ (p : Process H) (vm : ℕ) (entry : Vm H) where
    after_drain : Process H
    after_drain = put_vm (clear_error p) vm (drained entry [])

    take_output_drains :
        find_vm (clear_error p) vm ≡ ok entry
        → usable entry ≡ true
        → with_vm (clear_error p) vm (λ e. (ok (drain_output e).0, (drain_output e).1))
          ≡ (ok (pending entry), after_drain)
    unfolding after_drain
    take_output_drains found fine = rw (with_vm_found _ _ _ _ found, drain_output_lem entry fine)

    hand_output_drained :
        (buf : Option Bytes) (cap : ℕ)
        → find_vm (clear_error p) vm ≡ ok entry
        → usable entry ≡ true
        → aos_vm_take_output p vm buf cap ≡ hand_output vm buf cap (ok (pending entry), after_drain)
    unfolding aos_vm_take_output
    hand_output_drained buf cap found fine =
        ap (hand_output vm buf cap) (take_output_drains found fine)

    hand_output_given :
        (region : Bytes) (cap : ℕ)
        → find_vm (clear_error p) vm ≡ ok entry
        → usable entry ≡ true
        → 1 ≤ cap
        → aos_vm_take_output p vm (some region) cap
          ≡ give_output after_drain vm (pending entry) region cap
    unfolding hand_output give_output
    hand_output_given region cap found fine room =
        hand_output_drained (some region) cap found fine ∙ rw (hand_output, cap_nonzero cap room)

    hand_output_counted :
        (buf : Option Bytes)
        → find_vm (clear_error p) vm ≡ ok entry
        → usable entry ≡ true
        → aos_vm_take_output p vm buf 0 ≡ (as_i32 (pos (length (pending entry))), buf, after_drain)
    unfolding hand_output
    hand_output_counted none found fine = hand_output_drained none 0 found fine
    hand_output_counted (some region) found fine = hand_output_drained (some region) 0 found fine

    found_again :
        find_vm (clear_error p) vm ≡ ok entry → find_vm after_drain vm ≡ ok (drained entry [])
    unfolding after_drain
    found_again found = find_vm-put_vm (clear_error p) vm entry (drained entry []) found

    put_back_lem : (rest : Bytes) → put_back rest (drained entry []) ≡ drained entry rest
    unfolding put_back drained
    put_back_lem rest = ground (arith, append_nil rest)

    after_drain-last_error : after_drain.last_error ≡ none
    unfolding after_drain put_vm clear_error
    after_drain-last_error = refl

    -- What the second search for the machine leaves.
    second_search :
        (rest : Bytes)
        → find_vm (clear_error p) vm ≡ ok entry
        → (find_vm (with_vm {0} after_drain vm (λ e. (ok tt, put_back rest e))).1 vm
            ≡ ok (drained entry rest))
          × ((with_vm {0} after_drain vm (λ e. (ok tt, put_back rest e))).1.last_error ≡ none)
    second_search rest found =
        rw
          (with_vm_found {0} after_drain vm (drained entry []) (λ e. (ok tt, put_back rest e))
            (found_again found))
          (
            find_vm-put_vm after_drain vm (drained entry []) (put_back rest (drained entry []))
                  (found_again found)
                ∙ ap (λ e. ok e) (put_back_lem rest),
            put_vm-last_error after_drain vm (put_back rest (drained entry []))
                ∙ after_drain-last_error,
          )

    give_output_lem :
        (cap : ℕ) (region : Bytes)
        → find_vm (clear_error p) vm ≡ ok entry
        → let (code, buf, q) = give_output after_drain vm (pending entry) region cap in
          let n = min (length (pending entry)) cap in
          (code ≡ as_i32 (pos n))
          × (buf ≡ some (take cap (pending entry) ++ drop n region))
          × (find_vm q vm ≡ ok (drained entry (drop cap (pending entry))))
          × (q.last_error ≡ none)
    unfolding give_output
    give_output_lem cap region found =
        elim (Bool-cases (ltb (min (length (pending entry)) cap) (length (pending entry)))) [
          | inl more ↦
              let rest =
                second_search (drop (min (length (pending entry)) cap) (pending entry)) found in
              (
                refl,
                ap some (written (pending entry) region cap),
                rw (more)
                    (rest.0 ∙ ap (λ bs. ok (drained entry bs)) (drop-min cap (pending entry))),
                rw (more) rest.1,
              )
          | inr all ↦ (
            refl,
            ap some (written (pending entry) region cap),
            rw (all, drop_all cap (pending entry) (ground arith)) (found_again found),
            rw (all) after_drain-last_error,
          )
        ]

  -- On a live machine with usable sinks, a call with a buffer and a capacity above 0 writes the
  -- first `cap` bytes of what
  -- waits to the start of the buffer, keeps the buffer's other bytes, returns how many it
  -- wrote, as an `i32`, leaves no error text, and leaves exactly the rest waiting.
  pub aos_vm_take_output_lem :
      (p : Process H) (vm cap : ℕ) (entry : Vm H) (region : Bytes)
      → find_vm (clear_error p) vm ≡ ok entry
      → usable entry ≡ true
      → 1 ≤ cap
      → let (code, buf, q) = aos_vm_take_output p vm (some region) cap in
        let n = min (length (pending entry)) cap in
        (code ≡ as_i32 (pos n))
        × (buf ≡ some (take cap (pending entry) ++ drop n region))
        × (find_vm q vm ≡ ok (drained entry (drop cap (pending entry))))
        × (q.last_error ≡ none)
  aos_vm_take_output_lem p vm cap entry region found fine room =
      rw (hand_output_given p vm entry region cap found fine room)
        (give_output_lem p vm entry cap region found)

  -- On a live machine with usable sinks, a call with capacity 0 returns the number of bytes that
  -- wait, as an `i32`, and discards them: nothing waits afterwards.
  pub aos_vm_take_output_discards :
      (p : Process H) (vm : ℕ) (entry : Vm H) (buf : Option Bytes)
      → find_vm (clear_error p) vm ≡ ok entry
      → usable entry ≡ true
      → let (code, out, q) = aos_vm_take_output p vm buf 0 in
        (code ≡ as_i32 (pos (length (pending entry))))
        × (out ≡ buf)
        × (find_vm q vm ≡ ok (drained entry []))
  aos_vm_take_output_discards p vm entry buf found fine =
      rw (hand_output_counted p vm entry buf found fine) (refl, refl, found_again p vm entry found)
