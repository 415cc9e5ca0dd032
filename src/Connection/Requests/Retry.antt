-- ===== src/Connection/Requests/Retry.antt =====
-- An id keeps its content, and an answer closes its request
-- (bazaar_client/connection/requests.py).
use spaceport_bazzar_client.Base.{
  ◌==◌, nat_eq, Bool-cases, keep_if, any, ℕ, String, ◌≡◌, refl, ◌≢◌, ◌↔◌, inl, inr, true, false,
  not, ◌&&◌, none, some, List, [], ◌∷◌, arith,
}
use spaceport_bazzar_client.Connection.Requests.{
  PendingRequest, RequestTracker, sent_as, set_sent, is_outstanding, register, is_exact_retry,
  resolve,
}

sent_as-set_sent :
    (id : ℕ) (request : PendingRequest) (items : List (ℕ × PendingRequest))
    → sent_as id (set_sent id request items) ≡ some request
unfolding sent_as set_sent
sent_as-set_sent id request [] = ground arith
sent_as-set_sent id request ((i, old) ∷ items) = ground (arith, sent_as-set_sent id request items)

sent_as-set_sent_other :
    (id other : ℕ) (request : PendingRequest) (items : List (ℕ × PendingRequest))
    → other ≢ id
    → sent_as other (set_sent id request items) ≡ sent_as other items
unfolding sent_as set_sent
sent_as-set_sent_other id other request [] ne = ground arith
sent_as-set_sent_other id other request ((i, old) ∷ items) ne =
    ground (arith, sent_as-set_sent_other id other request items ne)

-- The request that `register` stores.
abbrev stored : ℕ → ℕ → String → ℕ → PendingRequest
stored id fingerprint kind tick = record {
  request_id = id;
  fingerprint = fingerprint;
  kind = kind;
  sent_tick = tick;
}

-- Once an id was used for a content, it stays with it: a later registration of any id either raises
-- or leaves the content of every id used before as it was.
pub register_keeps_content :
    (id fingerprint : ℕ) (kind : String) (tick : ℕ) (t t' : RequestTracker) (other content : ℕ)
    → is_exact_retry other content t ≡ true
    → register id fingerprint kind tick t ≡ some t'
    → is_exact_retry other content t' ≡ true
unfolding register is_exact_retry
register_keeps_content id fingerprint kind tick t t' other content h e =
    let own = sent_as-set_sent id (stored id fingerprint kind tick) t.sent in
    elim (Bool-cases (other == id)) [
      | inl same ↦ ground (arith, own)
      | inr different ↦ ground (
        arith,
        sent_as-set_sent_other id other (stored id fingerprint kind tick) t.sent (ground arith),
      )
    ]

-- Registration raises exactly for an id that was used before for another content.
pub register_refuses :
    (id fingerprint : ℕ) (kind : String) (tick : ℕ) (t : RequestTracker)
    → (register id fingerprint kind tick t ≡ none)
      ↔ ((sent_as id t.sent ≢ none) × (is_exact_retry id fingerprint t ≡ false))
unfolding register is_exact_retry
register_refuses id fingerprint kind tick t = ground arith

-- A registered request is outstanding, and a retry of its id is exact just when the content is the
-- same.
pub register_opens :
    (id fingerprint : ℕ) (kind : String) (tick : ℕ) (t t' : RequestTracker) (content : ℕ)
    → register id fingerprint kind tick t ≡ some t'
    → (is_outstanding id t' ≡ true)
      × ((is_exact_retry id content t' ≡ true) ↔ (content ≡ fingerprint))
unfolding register is_exact_retry is_outstanding
register_opens id fingerprint kind tick t t' content e =
    ground (arith, sent_as-set_sent id (stored id fingerprint kind tick) t.sent)

any-keep_if :
    (id other : ℕ) (ids : List ℕ)
    → any (λ i. i == other) (keep_if (λ i. not (i == id)) ids)
      ≡ any (λ i. i == other) ids && not (other == id)
any-keep_if id other [] = ground arith
any-keep_if id other (i ∷ ids) = ground (arith, any-keep_if id other ids)

-- An answer closes its own request and no other, and the content of every id is remembered.
pub resolve_closes :
    (id other content : ℕ) (t : RequestTracker)
    → let (found, t') = resolve id t in
      (is_outstanding other t' ≡ is_outstanding other t && not (other == id))
      × (is_exact_retry other content t' ≡ is_exact_retry other content t)
unfolding resolve is_outstanding is_exact_retry
resolve_closes id other content t = (any-keep_if id other t.open_ids, refl)
