-- ===== src/Sdk/Http.antt =====
-- sdk/go/http.go, and the request of sdk/go/stream.go. JSON, strings.TrimSpace and the transport are
-- parameters; a body that cannot be read is `none`.
use knobs.Base.{
  ℕ, Bool, Option, none, some, [], ◌∷◌, ◌++◌, ◌⊎◌, inl, inr, if◌then◌else◌, ltb, nat_eq, ◌&&◌, ◌||◌,
  ◌==◌,
}
use knobs.Base.Text.{Text, Text_eq, codes}
use knobs.Delivery.Snapshot.{Snapshot}
use knobs.Delivery.Listener.{digits}
use knobs.Sdk.Client.{Fetched, failed, missing, fetched}

-- A GET request; the header is empty where it is not set.
pub record Request : Type 0 where
  pub url : Text
  pub authorization : Text
  pub accept : Text

pub record Response : Type 0 where
  pub code : ℕ
  pub status : Text
  pub body : Option Text

-- What `Options` has for a request.
pub record Options : Type 0 where
  pub endpoint : Text
  pub api_key : Text

pub data FetchError : Type 0 where
  unanswered undecodable : FetchError
  bad_status : ℕ → Text → FetchError

-- `strings.TrimRight(s, "/")`
unfoldable pub trim_slashes : Text → Text
trim_slashes [] = []
trim_slashes (c ∷ s) =
    let rest = trim_slashes s in if rest == [] && nat_eq c b'/' then [] else c ∷ rest

abbrev pub bearer_of : Options → Text
bearer_of opts = codes "Bearer " ++ opts.api_key

unfoldable pub snapshot_request_of : Options → ℕ → Request
unfolding trim_slashes
snapshot_request_of opts since = record {
  url =
      let url = trim_slashes opts.endpoint ++ codes "/v1/snapshot" in
      if ltb 0 since then url ++ (codes "?since=" ++ digits since since) else url;
  authorization = bearer_of opts;
  accept = [];
}

unfoldable pub stream_request_of : Options → ℕ → Bool → Request
unfolding trim_slashes
stream_request_of opts since use_deltas = record {
  url =
      let url = trim_slashes opts.endpoint ++ (codes "/v1/stream?since=" ++ digits since since) in
      if use_deltas then url ++ codes "&deltas=1" else url;
  authorization = bearer_of opts;
  accept = codes "text/event-stream";
}

-- Whether a status is not of the 2xx.
abbrev pub is_failure : ℕ → Bool
is_failure code = ltb code 200 || ltb 299 code

module _ (trim : Text → Text) (decode_error : Text → Option Text) where
  -- The body as it is, trimmed, or else the status.
  abbrev pub plain_message : Text → Text → Text
  plain_message status body = if trim body == [] then status else trim body

  -- The field "error", which is empty where it is missing.
  unfoldable pub read_error_message : Response → Text
  read_error_message r = elim r.body [
    | none ↦ r.status
    | some body ↦ if body == [] then r.status else elim (decode_error body) [
      | none ↦ plain_message r.status body
      | some message ↦ if message == [] then plain_message r.status body else message
    ]
  ]

  module _ {V R : Type 0} (decode : Text → Option (Snapshot V R)) where
    -- What `fetchSnapshot` makes of a response: a 404 is no error.
    unfoldable pub read_snapshot : Response → FetchError ⊎ Option (Snapshot V R)
    read_snapshot r =
        if nat_eq r.code 404
        then inr none
        else if is_failure r.code
        then inl (bad_status r.code (read_error_message r))
        else elim r.body [
          | none ↦ inl undecodable
          | some body ↦ elim (decode body) [ none ↦ inl undecodable | some s ↦ inr (some s) ]
        ]

    unfoldable pub fetch_snapshot :
        (Request → Option Response) → Options → ℕ → FetchError ⊎ Option (Snapshot V R)
    fetch_snapshot send opts since = elim (send (snapshot_request_of opts since)) [
      | none ↦ inl unanswered
      | some r ↦ read_snapshot r
    ]

-- What the client makes of it.
abbrev pub fetched_of : {V R : Type 0} → FetchError ⊎ Option (Snapshot V R) → Fetched V R
fetched_of (inl error) = failed
fetched_of (inr none) = missing
fetched_of (inr (some s)) = fetched s
