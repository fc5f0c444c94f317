-- ===== src/Server/Replay.antt =====
-- A request that is sent again (src/server.rs).
use soap_server.Prelude.{
  ℕ, ◌+◌, ◌≤◌, ◌<◌, Bytes, true, Option, some, List, ◌≡◌, ◌⊎◌, inl, inr, arith, ok, All, length,
}
use soap_server.Envelope.Parse.{ParsedEnvelope, parse_envelope}
use soap_server.Dispatch.Table.{DispatchEntry, DispatchTable}
use soap_server.Wssec.NonceCache.{NonceCache, Clock, check_and_insert}
use soap_server.Wssec.NonceCache.Rotation.{window}
use soap_server.Wssec.NonceCache.Replay.{Call, after_calls, replay_refused}
use soap_server.Wssec.Timestamp.{DateTime}
use soap_server.Wssec.UsernameToken.Names.{UsernameToken}
use soap_server.Wssec.UsernameToken.Parse.{parse_username_token}
use soap_server.Server.Handler.{SoapHandler}
use soap_server.Server.Request.{HeaderMap, find_security_header}
use soap_server.Server.Service.{Library, Response, SoapService}
use soap_server.Server.Post.{fault_response, select, post}
use soap_server.Server.Served.{
  IsAdmitted, bypassed, unprotected, authenticated, IsServed, IsRefused, post_cases,
}

-- A request for a protected operation, whose token has a nonce.
pub record IsProtected {W : Type 0} (lib : Library) (svc : SoapService W)
    (table : DispatchTable (SoapHandler W)) (headers : HeaderMap) (body nonce : Bytes)
    : Type 0 where
  pub envelope : ParsedEnvelope
  pub parsed : parse_envelope (lib.readers.resolved body) ≡ some (ok envelope)
  pub entry : DispatchEntry (SoapHandler W)
  pub selected : select lib table headers envelope ≡ ok entry
  pub required : entry.auth_required ≡ true
  pub get_password : Bytes → Option Bytes
  pub given : svc.auth_fn ≡ some get_password
  pub security : Bytes
  pub found : find_security_header lib.readers envelope.header_children ≡ some security
  pub token : UsernameToken
  pub read : parse_username_token (lib.readers.plain security) ≡ ok token
  pub nonced : token.nonce ≡ some nonce

module _ {W : Type 0} (lib : Library) (svc : SoapService W) (table : DispatchTable (SoapHandler W))
    (headers : HeaderMap) (body nonce : Bytes)
    (request : IsProtected lib svc table headers body nonce) where
  accepted-SpendsNonce :
      (clock : Clock) (now : DateTime) (cache cache' : NonceCache)
      → IsAdmitted lib svc clock now request.entry request.envelope cache cache'
      → check_and_insert clock nonce cache ≡ some (ok tt, cache')
  accepted-SpendsNonce clock now cache cache' (bypassed public kept) =
      absurd (ground (arith, request.required))
  accepted-SpendsNonce clock now cache cache' (unprotected open_server kept) =
      absurd (ground (arith, request.given))
  accepted-SpendsNonce clock now cache cache' (authenticated f s user given found a) =
      let same_header : s ≡ request.security = cc (found, request.found) in
      let again : parse_username_token (lib.readers.plain s) ≡ ok request.token =
        rw same_header request.read in
      let same_token : a.token ≡ request.token = cc (a.parsed, again) in
      let same_nonce : a.token.nonce ≡ some nonce = cc (same_token, request.nonced) in
      rw same_nonce at a.spent

  -- The request is refused, or it spends its nonce.
  post-spends :
      (clock : Clock) (now : DateTime) (cache cache' : NonceCache) (world world' : W) (r : Response)
      → post lib svc table headers body clock now cache world ≡ some (r, cache', world')
      → IsRefused lib svc clock now table headers cache cache' world world' r
        ⊎ (check_and_insert clock nonce cache ≡ some (ok tt, cache'))
  post-spends clock now cache cache' world world' r h =
      elim (post_cases lib svc clock now table headers cache cache' world world' r body h) [
        | inl refused ↦ inl refused
        | inr (envelope, parsed, served) ↦
            let same_envelope : envelope ≡ request.envelope = cc (parsed, request.parsed) in
            let served' : IsServed lib svc clock now table headers cache cache' world world' r
                request.envelope =
              rw same_envelope at served in
            let same_entry : served'.entry ≡ request.entry =
              cc (served'.selected, request.selected) in
            inr (accepted-SpendsNonce clock now cache cache' (rw same_entry at served'.admitted))
      ]

  -- With a positive half-window, a request for a protected operation whose token has a
  -- nonce, answered with status 200 once, is answered with status 500 and leaves the world
  -- of the handlers as it is when the same request is sent again, if no reading of the clock
  -- for the first precedes some instant, all readings afterwards lie within one half-window
  -- of that instant, and the bucket has room for the nonces in between.
  pub replayed_request_refused :
      (since : ℕ) (first again : Clock) (now now' : DateTime) (calls : List Call)
      (c c₁ c₂ c₃ : NonceCache) (w w₁ w₂ w₃ : W) (r r' : Response)
      → 0 < c.half_window_secs
      → All (λ t. since ≤ t) first.readings
      → since ≤ first.instant
      → post lib svc table headers body first now c w ≡ some (r, c₁, w₁)
      → r.status ≡ 200
      → length c₁.current + length calls ≤ c₁.max_entries
      → All (λ call. All (λ t. t < since + window c) call.clock.readings) calls
      → All (λ t. t < since + window c) again.readings
      → after_calls calls c₁ ≡ some c₂
      → post lib svc table headers body again now' c₂ w₂ ≡ some (r', c₃, w₃)
      → (w₃ ≡ w₂) × (r'.status ≡ 500)
  unfolding fault_response
  replayed_request_refused since first again now now' calls c c₁ c₂ c₃ w w₁ w₂ w₃ r r' p h i sent
        served room hs h' run sent' =
      elim (post-spends first now c c₁ w w₁ r sent) [
        | inl (kept, (fault, version, e)) ↦ absurd (ground arith)
        | inr spent ↦ elim (post-spends again now' c₂ c₃ w₂ w₃ r' sent') [
          | inl (kept, (fault, version, e)) ↦ (kept, ground arith)
          | inr spent' ↦
              let (refused, _) =
                replay_refused nonce since first again calls c c₁ c₂ c₃ (ok tt) p h i spent room hs
                  h' run spent' in
              absurd (ground arith)
        ]
      ]
