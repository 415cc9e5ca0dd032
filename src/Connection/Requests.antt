-- ===== src/Connection/Requests.antt =====
-- `PendingRequestTracker` of bazaar_client/connection/requests.py. A fingerprint is a text that the
-- code only compares: a number here. The set of open ids is a list.
pub mod Retry
use spaceport_bazzar_client.Base.{
  if◌then◌else◌, ◌==◌, nat_eq, keep_if, any, ℕ, String, Bool, false, not, Option, none, some, List,
  [], ◌∷◌,
}
use spaceport_bazzar_client.Domain.Bundle.{resource_eq}
use spaceport_bazzar_client.Domain.Types.{object_eq}

pub record PendingRequest : Type 0 where
  pub request_id : ℕ
  pub fingerprint : ℕ
  pub kind : String
  pub sent_tick : ℕ

pub record RequestTracker : Type 0 where
  pub sent : List (ℕ × PendingRequest)
  pub open_ids : List ℕ

abbrev pub new_requests : RequestTracker
new_requests = record { sent = []; open_ids = [] }

-- `self._sent.get(request_id)`
unfoldable pub sent_as : ℕ → List (ℕ × PendingRequest) → Option PendingRequest
sent_as id [] = none
sent_as id ((i, request) ∷ items) =
    let rest = sent_as id items in if i == id then some request else rest

-- `self._sent[request_id] = request`
unfoldable pub set_sent : ℕ → PendingRequest → List (ℕ × PendingRequest) → List (ℕ × PendingRequest)
set_sent id request [] = (id, request) ∷ []
set_sent id request ((i, old) ∷ items) =
    let rest = set_sent id request items in
    if i == id then (id, request) ∷ items else (i, old) ∷ rest

-- `previous is not None and previous.fingerprint == fingerprint`
abbrev pub has_fingerprint : ℕ → Option PendingRequest → Bool
has_fingerprint fingerprint none = false
has_fingerprint fingerprint (some previous) = previous.fingerprint == fingerprint

-- `previous and previous.fingerprint != fingerprint`
abbrev pub conflicts : ℕ → Option PendingRequest → Bool
conflicts fingerprint none = false
conflicts fingerprint (some previous) = not (previous.fingerprint == fingerprint)

-- `request_id in self._open`
unfoldable pub is_outstanding : ℕ → RequestTracker → Bool
is_outstanding id t = any (λ i. i == id) t.open_ids

-- `register`; `none` is a raised `RequestIdConflictError`
unfoldable pub register : ℕ → ℕ → String → ℕ → RequestTracker → Option RequestTracker
unfolding sent_as set_sent is_outstanding
register id fingerprint kind tick t =
    if conflicts fingerprint (sent_as id t.sent)
    then none
    else some (record {
      sent =
          set_sent id
            (record { request_id = id; fingerprint = fingerprint; kind = kind; sent_tick = tick })
            t.sent;
      open_ids = if is_outstanding id t then t.open_ids else id ∷ t.open_ids;
    })

unfoldable pub is_exact_retry : ℕ → ℕ → RequestTracker → Bool
unfolding sent_as
is_exact_retry id fingerprint t = has_fingerprint fingerprint (sent_as id t.sent)

unfoldable pub resolve : ℕ → RequestTracker → Option PendingRequest × RequestTracker
unfolding sent_as
resolve id t = (sent_as id t.sent, record t { open_ids = keep_if (λ i. not (i == id)) t.open_ids })
