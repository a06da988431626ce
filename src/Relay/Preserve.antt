-- ===== src/Relay/Preserve.antt =====
-- Each step keeps the invariant of Relay/Invariant.antt.
use flutter_experiments.Common.{
  ℕ, ◌+◌, ◌≡◌, inl, inr, Bytes, Bool, false, List, [], ◌∷◌, ◌++◌, ℤ, length, arith, Option-cases,
  Bool-cases, int_eq,
}
use flutter_experiments.Common.Dict.{
  lookup, insert, AllEntries-modify, AllEntries-insert, AllEntries-remove,
}
use flutter_experiments.Relay.State.{
  HttpSlot, HostCallSlot, PersistSlot, WsSlot, default_http, default_persist, default_ws,
  EgressRelayEvent, RelayState, alloc_handle,
}
use flutter_experiments.Relay.Net
use flutter_experiments.Relay.Net.{read_body}
use flutter_experiments.Relay.WebSocket
use flutter_experiments.Relay.WebSocket.{refuses_send, read_incoming, ws_send_mark}
use flutter_experiments.Relay.HostCall
use flutter_experiments.Relay.HostCall.{split_request}
use flutter_experiments.Relay.Persist
use flutter_experiments.Relay.Persist.{parse_request, event_of}
use flutter_experiments.Relay.Invariant.{
  HttpOk, HostCallOk, PersistOk, WsOk, FitsFront, Inv, put_http, put_host, put_persist, put_ws,
  alloc_handle-Inv,
}

-- Reads stay within what is stored.
read_body-HttpOk :
    (K : ℤ → Type 0) (k : ℤ) (s : HttpSlot) (buf : Bytes)
    → HttpOk K k s
    → HttpOk K k (read_body s buf).2
unfolding read_body
read_body-HttpOk K k s buf v = ground arith

host_read-HostCallOk :
    (K : ℤ → Type 0) (k : ℤ) (s : HostCallSlot) (buf : Bytes)
    → HostCallOk K k s
    → HostCallOk K k (HostCall.read_result s buf).2
unfolding HostCall.read_result
host_read-HostCallOk K k s buf v = ground arith

persist_read-PersistOk :
    (K : ℤ → Type 0) (k : ℤ) (s : PersistSlot) (buf : Bytes)
    → PersistOk K k s
    → PersistOk K k (Persist.read_result s buf).2
unfolding Persist.read_result
persist_read-PersistOk K k s buf v = ground arith

abbrev rest_of : List Bytes → List Bytes
rest_of [] = []
rest_of (x ∷ xs) = xs

pub FitsFront-append :
    (xs : List Bytes) (b : Bytes) (n : ℕ) → FitsFront xs n → FitsFront (xs ++ b ∷ []) n
FitsFront-append [] b n h = omega arith
FitsFront-append (x ∷ xs) b n h = h

FitsFront-zero : (xs : List Bytes) → FitsFront xs 0
FitsFront-zero [] = omega arith
FitsFront-zero (x ∷ xs) = omega arith

read_incoming-WsOk :
    (K : ℤ → Type 0) (k : ℤ) (s : WsSlot) (buf : Bytes)
    → WsOk K k s
    → WsOk K k (read_incoming s buf).2
unfolding read_incoming
read_incoming-WsOk K k s buf v = ground (arith, FitsFront-zero (rest_of s.incoming))

-- What `ws_send` accepts fits below the mark.
refuses_send-WsOk :
    (K : ℤ → Type 0) (k : ℤ) (s : WsSlot) (bytes : Bytes)
    → WsOk K k s
    → refuses_send s bytes ≡ false
    → WsOk K k (record s { queued_bytes = s.queued_bytes + length bytes })
unfolding refuses_send
refuses_send-WsOk K k s bytes v h = ground arith

module _ {K : ℤ → Type 0} (r : RelayState) (v : Inv K r) where
  pub http_request-Inv : K (alloc_handle r).0 → (req : Bytes) → Inv K (Net.http_request r req).1
  unfolding Net.http_request
  http_request-Inv f req = put_http (alloc_handle r).1 _ (alloc_handle-Inv r v) (
      AllEntries-insert (HttpOk K) (alloc_handle r).0 default_http r.http v.http_ok
        (f, omega arith))

  pub http_body-Inv : (h : ℤ) (buf : Bytes) → Inv K (Net.http_body r h buf).2
  unfolding Net.http_body
  http_body-Inv h buf = elim (Option-cases (lookup h r.http)) [
    | inl e ↦ rw (e, Net.http_body) v
    | inr (s, e) ↦
        rw (e, Net.http_body)
          (put_http r r.events v
            (AllEntries-modify (HttpOk K) h r.http e (read_body-HttpOk K h s buf) v.http_ok))
  ]

  pub http_close-Inv : (h : ℤ) → Inv K (Net.http_close r h)
  unfolding Net.http_close
  http_close-Inv h = put_http r r.events v (AllEntries-remove (HttpOk K) h r.http v.http_ok)

  pub ws_connect-Inv : K (alloc_handle r).0 → (url : Bytes) → Inv K (WebSocket.ws_connect r url).1
  unfolding WebSocket.ws_connect
  ws_connect-Inv f url = put_ws (alloc_handle r).1 _ (alloc_handle-Inv r v) (
      AllEntries-insert (WsOk K) (alloc_handle r).0 default_ws r.ws v.ws_ok
        (f, omega arith, omega arith))

  pub ws_send-Inv : (h : ℤ) (bytes : Bytes) → Inv K (WebSocket.ws_send r h bytes).1
  unfolding WebSocket.ws_send
  ws_send-Inv h bytes = elim (Option-cases (lookup h r.ws)) [
    | inl e ↦ rw (e, WebSocket.ws_send) v
    | inr (s, e) ↦ elim (Bool-cases (refuses_send s bytes)) [
      | inl no_room ↦ rw (e, WebSocket.ws_send, no_room) v
      | inr room ↦
          rw (e, WebSocket.ws_send, room)
            (put_ws r _ v (
              AllEntries-modify (WsOk K) h r.ws e (λ w. refuses_send-WsOk K h s bytes w room)
                v.ws_ok))
    ]
  ]

  pub ws_recv-Inv : (h : ℤ) (buf : Bytes) → Inv K (WebSocket.ws_recv r h buf).2
  unfolding WebSocket.ws_recv
  ws_recv-Inv h buf = elim (Option-cases (lookup h r.ws)) [
    | inl e ↦ rw (e, WebSocket.ws_recv) v
    | inr (s, e) ↦
        rw (e, WebSocket.ws_recv)
          (put_ws r r.events v
            (AllEntries-modify (WsOk K) h r.ws e (read_incoming-WsOk K h s buf) v.ws_ok))
  ]

  pub ws_close-Inv : (h : ℤ) → Inv K (WebSocket.ws_close r h)
  unfolding WebSocket.ws_close
  ws_close-Inv h = put_ws r _ v (AllEntries-remove (WsOk K) h r.ws v.ws_ok)

  -- A start that refuses takes no handle.
  pub host_start-Inv :
      (only : Bool) (req : Bytes)
      → ((HostCall.start only r req).1.next ≡ (alloc_handle r).1.next → K (alloc_handle r).0)
      → Inv K (HostCall.start only r req).1
  unfolding HostCall.start
  host_start-Inv only req f = elim (Bool-cases (HostCall.refused only (split_request req).0)) [
    | inl barred ↦ rw (barred, HostCall.start) v
    | inr fine ↦
        rw (fine, HostCall.start)
          (put_host (alloc_handle r).1 _ (alloc_handle-Inv r v) (
            AllEntries-insert (HostCallOk K) (alloc_handle r).0 _ r.host_calls v.host_ok
              (f (rw (fine, HostCall.start)), omega arith)))
  ]

  pub host_body-Inv : (h : ℤ) (buf : Bytes) → Inv K (HostCall.body r h buf).2
  unfolding HostCall.body
  host_body-Inv h buf = elim (Option-cases (lookup h r.host_calls)) [
    | inl e ↦ rw (e, HostCall.body) v
    | inr (s, e) ↦
        rw (e, HostCall.body)
          (put_host r r.events v (
            AllEntries-modify (HostCallOk K) h r.host_calls e (host_read-HostCallOk K h s buf)
              v.host_ok))
  ]

  pub host_close-Inv : (h : ℤ) → Inv K (HostCall.close r h)
  unfolding HostCall.close
  host_close-Inv h = put_host r _ v (AllEntries-remove (HostCallOk K) h r.host_calls v.host_ok)

  pub persist_start-Inv :
      (req : Bytes)
      → ((Persist.start r req).1.next ≡ (alloc_handle r).1.next → K (alloc_handle r).0)
      → Inv K (Persist.start r req).1
  unfolding Persist.start
  persist_start-Inv req f = elim (Option-cases (parse_request req)) [
    | inl e ↦ rw (e, Persist.start) v
    | inr ((op, key, value), e) ↦
        rw (e, Persist.start)
          (begin op key value (f (rw (e, Persist.start) (next-begin op key value))))
  ]
    where
      next-begin :
          (op : ℕ) (key value : Bytes)
          → (Persist.begin r op key value).1.next ≡ (alloc_handle r).1.next
      next-begin op key value = unfold Persist.begin in ground arith

      fresh_ok :
          K (alloc_handle r).0
          → (evs : List EgressRelayEvent)
          → Inv K (record (alloc_handle r).1 {
            persist = insert (alloc_handle r).0 default_persist r.persist;
            events = evs;
          })
      fresh_ok k evs = put_persist (alloc_handle r).1 evs (alloc_handle-Inv r v) (
          AllEntries-insert (PersistOk K) (alloc_handle r).0 default_persist r.persist v.persist_ok
            (k, omega arith))

      begin :
          (op : ℕ) (key value : Bytes)
          → K (alloc_handle r).0
          → Inv K (Persist.begin r op key value).1
      begin op key value k = elim (Option-cases (event_of op (alloc_handle r).0 key value)) [
        | inl e ↦ rw (e, Persist.begin) (fresh_ok k _)
        | inr (ev, e) ↦ rw (e, Persist.begin) (fresh_ok k _)
      ]

  pub persist_body-Inv : (h : ℤ) (buf : Bytes) → Inv K (Persist.body r h buf).2
  unfolding Persist.body
  persist_body-Inv h buf = elim (Option-cases (lookup h r.persist)) [
    | inl e ↦ rw (e, Persist.body) v
    | inr (s, e) ↦
        rw (e, Persist.body)
          (put_persist r r.events v (
            AllEntries-modify (PersistOk K) h r.persist e (persist_read-PersistOk K h s buf)
              v.persist_ok))
  ]

  pub persist_close-Inv : (h : ℤ) → Inv K (Persist.close r h)
  unfolding Persist.close
  persist_close-Inv h =
      put_persist r r.events v (AllEntries-remove (PersistOk K) h r.persist v.persist_ok)
