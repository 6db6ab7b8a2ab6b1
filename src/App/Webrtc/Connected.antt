-- ===== src/App/Webrtc/Connected.antt =====
-- What the application hears of `connect`.
use localsend_uyava.Prelude.{
  ℕ, ◌≡◌, refl, sym, ap, ◌∙◌, ◌≤◌, ◌<◌, ◌+◌, ◌^◌, List, [], ◌∷◌, map, none, some, Text, Result, ok,
  err, >>=-eq-ok, true, ◌⊎◌, inl, inr, ◌>>=◌,
}
use localsend_uyava.Crypto.Token.{
  Crypto, Outcome, value, panic, to_verifying_key, generate_token_timestamp, verify_token_timestamp,
}
use localsend_uyava.Crypto.Token.RoundTrip.{CryptoLaws, verify_token_timestamp-generate}
use localsend_uyava.Crypto.Keys.{KeyFormats, parse_private_key}
use localsend_uyava.Signaling.{ClientInfoWithoutId, WsServerMessage}
use localsend_uyava.Signaling.Client.{Event}
use localsend_uyava.Signaling.Connect.{SignalingConnection}
use localsend_uyava.Signaling.Listener.{messages, run_refines}
use localsend_uyava.App.Webrtc
use localsend_uyava.App.Webrtc.{Sunk, add, add_error, ProposingClientInfo, sign, Reported}

>>=-eq-err :
    {A B : Type 0} (r : Result A) (f : A → B) {e : Text}
    → (r >>= λ a. ok (f a)) ≡ err e
    → (e' : Text) × (r ≡ err e')
>>=-eq-err (ok a) f h = cc
>>=-eq-err (err m) f h = (m, refl)

-- A token that is accepted with the key for an hour.
abbrev IsFresh : (c : Crypto) → c.SigningKey → ℕ → Text → Type 0
IsFresh c key made token =
    (now : ℕ)
    → made ≤ now
    → now ≤ made + 3600
    → now < 2 ^ 64
    → verify_token_timestamp c (to_verifying_key c key) token (ok now) ≡ value true

module _ {C : Type 0} (c : Crypto) (keys : KeyFormats c)
    (open_socket : ClientInfoWithoutId → Outcome (Result SignalingConnection))
    (info : ProposingClientInfo) (private_key : Text) (made : ℕ)
    (events : List WsServerMessage → List (Event C)) where
  -- The application's own information, with a fresh token of the key that it gave.
  abbrev pub IsOwn : ClientInfoWithoutId → Type 0
  IsOwn client_info =
      (key : c.SigningKey) × (parse_private_key c keys private_key ≡ ok key)
      × (client_info.alias ≡ info.alias)
      × (client_info.version ≡ info.version)
      × (client_info.device_model ≡ info.device_model)
      × (client_info.device_type ≡ info.device_type)
      × IsFresh c key made client_info.token

  -- What has to fail where there is no connection.
  abbrev pub IsRefused : Type 0
  IsRefused =
      ((e : Text) × (parse_private_key c keys private_key ≡ err e))
      ⊎ (((key : c.SigningKey) × (e : Text) × (parse_private_key c keys private_key ≡ ok key)
            × (generate_token_timestamp c key (ok made) ≡ err e))
          ⊎ ((client_info : ClientInfoWithoutId) × (e : Text) × IsOwn client_info
              × (open_socket client_info ≡ value (err e))))

  -- What an end of `connect` means: it was told of one error and has no connection, or it has one.
  abbrev pub IsHeard : Reported → Type 0
  IsHeard (sink, none) = (e : Text) × (sink ≡ add_error e ∷ []) × IsRefused
  IsHeard (sink, some client) =
      (client_info : ClientInfoWithoutId) × (connection : SignalingConnection) × IsOwn client_info
      × (open_socket client_info ≡ value (ok connection))
      × (client ≡ connection.client)
      × (sink ≡ map add connection.rx)

  abbrev pub IsHeardOutcome : Outcome Reported → Type 0
  IsHeardOutcome panic =
      (client_info : ClientInfoWithoutId) × IsOwn client_info × (open_socket client_info ≡ panic)
  IsHeardOutcome (value r) = IsHeard r

  sign-IsOwn :
      CryptoLaws c
      → (key : c.SigningKey) (client_info : ClientInfoWithoutId)
      → parse_private_key c keys private_key ≡ ok key
      → sign c info key (ok made) ≡ ok client_info
      → IsOwn client_info
  unfolding sign
  sign-IsOwn laws key client_info parsed signed =
      let (token, generated, same) =
        >>=-eq-ok (generate_token_timestamp c key (ok made)) _ signed in
      let made_of : ClientInfoWithoutId = record {
        alias = info.alias;
        version = info.version;
        device_model = info.device_model;
        device_type = info.device_type;
        token = token;
      } in
      let e : made_of ≡ client_info = cc same in
      (
        key,
        parsed,
        ap (λ i. i.alias) (sym e),
        ap (λ i. i.version) (sym e),
        ap (λ i. i.device_model) (sym e),
        ap (λ i. i.device_type) (sym e),
        λ now past recent small.
            ap (λ i. verify_token_timestamp c (to_verifying_key c key) i.token (ok now)) (sym e)
            ∙ verify_token_timestamp-generate c key made now token laws generated past recent small,
      )

  -- Only the token can keep the information from being signed.
  sign-refused :
      (key : c.SigningKey) (e : Text)
      → sign c info key (ok made) ≡ err e
      → (e' : Text) × (generate_token_timestamp c key (ok made) ≡ err e')
  unfolding sign
  sign-refused key e h = >>=-eq-err (generate_token_timestamp c key (ok made)) _ h

  module _ (laws : CryptoLaws c)
      (interleaves : (rx : List WsServerMessage) → messages (events rx) ≡ rx) where
    -- Under the laws of the crates, and if the events are the connection's messages with callbacks
    -- added between them, `connect` ends in one of these ways. The application is told of one
    -- error and has no connection, where the key cannot be parsed, the token cannot be made, or
    -- opening the socket fails. Or it has the connection, and is told of every message of it, in
    -- order. Or opening the socket has panicked. In the cases in which the socket is opened, it is
    -- with the application's own alias, version and device, signed with the key that it gave, so
    -- that the token is accepted for an hour.
    pub connect_hears :
        IsHeardOutcome (Webrtc.connect c keys open_socket info private_key (ok made) events)
    unfolding Webrtc.connect
    connect_hears = with_key (parse_private_key c keys private_key) refl
      where
        listened :
            (key : c.SigningKey) (client_info : ClientInfoWithoutId)
            (opened : Outcome (Result SignalingConnection))
            → parse_private_key c keys private_key ≡ ok key
            → sign c info key (ok made) ≡ ok client_info
            → open_socket client_info ≡ opened
            → IsHeardOutcome (Webrtc.listen c events opened)
        listened key client_info panic parsed signed opened =
            (client_info, sign-IsOwn laws key client_info parsed signed, opened)
        listened key client_info (value (err e)) parsed signed opened = (
          e,
          refl,
          inr (inr (client_info, e, sign-IsOwn laws key client_info parsed signed, opened)),
        )
        listened key client_info (value (ok connection)) parsed signed opened = (
          client_info,
          connection,
          sign-IsOwn laws key client_info parsed signed,
          opened,
          refl,
          ap (map add) ((run_refines [] (events connection.rx)).1 ∙ interleaves connection.rx),
        )

        signed :
            (key : c.SigningKey) (r : Result ClientInfoWithoutId)
            → parse_private_key c keys private_key ≡ ok key
            → sign c info key (ok made) ≡ r
            → IsHeardOutcome (Webrtc.signed c keys open_socket events r)
        signed key (ok client_info) parsed e =
            listened key client_info (open_socket client_info) parsed e refl
        signed key (err m) parsed e =
            let (e', refused) = sign-refused key m e in
            (_, refl, inr (inl (key, e', parsed, refused)))

        with_key :
            (r : Result c.SigningKey)
            → parse_private_key c keys private_key ≡ r
            → IsHeardOutcome (Webrtc.with_key c keys open_socket info (ok made) events r)
        with_key (ok key) parsed = signed key (sign c info key (ok made)) parsed refl
        with_key (err m) parsed = (_, refl, inl (m, parsed))
