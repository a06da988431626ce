-- ===== src/Relay/Invariant.antt =====
-- What holds of the relay between any two steps.
use flutter_experiments.Common.{
  ℕ, ◌^◌, ◌≤◌, ◌<◌, Bytes, List, [], ◌∷◌, ℤ, pos, negsuc, if◌then◌else◌, is_positive, max_one,
  as_i32, succ, length, arith, int_eq,
}
use flutter_experiments.Common.Dict.{AllEntries, AllEntries-map}
use flutter_experiments.Relay.State.{
  HttpSlot, HostCallSlot, PersistSlot, WsSlot, EgressRelayEvent, RelayState, new, alloc_handle,
}
use flutter_experiments.Relay.WebSocket.{ws_send_mark}

-- A handle that may be given out: a positive `i32`.
abbrev pub IsHandle : ℤ → Type 0
IsHandle (pos n) = (1 ≤ n) × (n < 2 ^ 31)
IsHandle (negsuc n) = ⊥

-- The bytes read of the front message are within it.
abbrev pub FitsFront : List Bytes → ℕ → Type 0
FitsFront [] n = n ≤ 0
FitsFront (front ∷ rest) n = n ≤ length front

-- The slots, with a condition `K` on their handles.
module _ (K : ℤ → Type 0) where
  abbrev pub HttpOk : ℤ → HttpSlot → Type 0
  HttpOk k s = K k × (s.body_pos ≤ length s.body)

  abbrev pub HostCallOk : ℤ → HostCallSlot → Type 0
  HostCallOk k s = K k × (s.offset ≤ length s.result)

  abbrev pub PersistOk : ℤ → PersistSlot → Type 0
  PersistOk k s = K k × (s.offset ≤ length s.result)

  abbrev pub WsOk : ℤ → WsSlot → Type 0
  WsOk k s = K k × (s.queued_bytes ≤ ws_send_mark) × FitsFront s.incoming s.incoming_pos

  abbrev pub PendingOk : ℤ → ℕ → Type 0
  PendingOk k tx = K k

pub record Inv (K : ℤ → Type 0) (r : RelayState) : Type 0 where
  pub next_ok : IsHandle r.next
  pub http_ok : AllEntries (HttpOk K) r.http
  pub host_ok : AllEntries (HostCallOk K) r.host_calls
  pub persist_ok : AllEntries (PersistOk K) r.persist
  pub ws_ok : AllEntries (WsOk K) r.ws
  pub pending_ok : AllEntries (PendingOk K) r.pending_tool_approvals

pub new-Inv : (K : ℤ → Type 0) → Inv K new
unfolding new
new-Inv K = record {
  next_ok = omega arith;
  http_ok = tt;
  host_ok = tt;
  persist_ok = tt;
  ws_ok = tt;
  pending_ok = tt;
}

IsHandle-steps :
    (h : ℤ)
    → IsHandle h
    → IsHandle (if is_positive h then h else pos 1)
      × IsHandle (max_one (as_i32 (succ (if is_positive h then h else pos 1))))
unfolding as_i32
IsHandle-steps (pos n) h = ground arith
IsHandle-steps (negsuc n) h = absurd h

-- The counter stays a handle, also where it goes round.
pub alloc_handle-IsHandle :
    (r : RelayState)
    → IsHandle r.next
    → IsHandle (alloc_handle r).0 × IsHandle (alloc_handle r).1.next
unfolding alloc_handle
alloc_handle-IsHandle r h = IsHandle-steps r.next h

-- One lemma for each map that a step writes; the queue is no part of the invariant.
module _ {K : ℤ → Type 0} (r : RelayState) (evs : List EgressRelayEvent) (v : Inv K r) where
  pub put_http :
      {m : List (ℤ × HttpSlot)}
      → AllEntries (HttpOk K) m
      → Inv K (record r { http = m; events = evs })
  put_http a = record {
    next_ok = v.next_ok;
    http_ok = a;
    host_ok = v.host_ok;
    persist_ok = v.persist_ok;
    ws_ok = v.ws_ok;
    pending_ok = v.pending_ok;
  }

  pub put_host :
      {m : List (ℤ × HostCallSlot)}
      → AllEntries (HostCallOk K) m
      → Inv K (record r { host_calls = m; events = evs })
  put_host a = record {
    next_ok = v.next_ok;
    http_ok = v.http_ok;
    host_ok = a;
    persist_ok = v.persist_ok;
    ws_ok = v.ws_ok;
    pending_ok = v.pending_ok;
  }

  pub put_persist :
      {m : List (ℤ × PersistSlot)}
      → AllEntries (PersistOk K) m
      → Inv K (record r { persist = m; events = evs })
  put_persist a = record {
    next_ok = v.next_ok;
    http_ok = v.http_ok;
    host_ok = v.host_ok;
    persist_ok = a;
    ws_ok = v.ws_ok;
    pending_ok = v.pending_ok;
  }

  pub put_ws :
      {m : List (ℤ × WsSlot)} → AllEntries (WsOk K) m → Inv K (record r { ws = m; events = evs })
  put_ws a = record {
    next_ok = v.next_ok;
    http_ok = v.http_ok;
    host_ok = v.host_ok;
    persist_ok = v.persist_ok;
    ws_ok = a;
    pending_ok = v.pending_ok;
  }

  pub put_pending :
      {m : List (ℤ × ℕ)}
      → AllEntries (PendingOk K) m
      → Inv K (record r { pending_tool_approvals = m; events = evs })
  put_pending a = record {
    next_ok = v.next_ok;
    http_ok = v.http_ok;
    host_ok = v.host_ok;
    persist_ok = v.persist_ok;
    ws_ok = v.ws_ok;
    pending_ok = a;
  }

pub alloc_handle-Inv : {K : ℤ → Type 0} (r : RelayState) → Inv K r → Inv K (alloc_handle r).1
unfolding alloc_handle
alloc_handle-Inv r v = record {
  next_ok = (alloc_handle-IsHandle r v.next_ok).1;
  http_ok = v.http_ok;
  host_ok = v.host_ok;
  persist_ok = v.persist_ok;
  ws_ok = v.ws_ok;
  pending_ok = v.pending_ok;
}

-- A weaker condition on the handles.
pub Inv-map : (K L : ℤ → Type 0) → ((k : ℤ) → K k → L k) → (r : RelayState) → Inv K r → Inv L r
Inv-map K L f r v = record {
  next_ok = v.next_ok;
  http_ok = AllEntries-map (HttpOk K) (HttpOk L) (λ k s p. (f k p.0, p.1)) r.http v.http_ok;
  host_ok =
      AllEntries-map (HostCallOk K) (HostCallOk L) (λ k s p. (f k p.0, p.1)) r.host_calls v.host_ok;
  persist_ok =
      AllEntries-map (PersistOk K) (PersistOk L) (λ k s p. (f k p.0, p.1)) r.persist v.persist_ok;
  ws_ok = AllEntries-map (WsOk K) (WsOk L) (λ k s p. (f k p.0, p.1, p.2)) r.ws v.ws_ok;
  pending_ok =
      AllEntries-map (PendingOk K) (PendingOk L) (λ k s p. f k p) r.pending_tool_approvals
        v.pending_ok;
}
