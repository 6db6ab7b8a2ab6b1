-- ===== src/Http/Client/Checks.antt =====
-- What the HTTP client has checked of a response that it takes.
use mathlib.Core.Path.{subst}
use localsend_uyava.Prelude.{
  ℕ, ℕ-Eq, ◌==◌, ◌≡◌, refl, sym, ◌∙◌, Option, none, some, Bool-cases, inl, inr, nat_eq_iff, Bytes,
  Text, ascii, Result, >>=-eq-ok,
}
use localsend_uyava.Model.{Codec}
use localsend_uyava.Crypto.Token.{Crypto}
use localsend_uyava.Crypto.Cert.{X509, verify_cert_from_der}
use localsend_uyava.Http.Dto.{ProtocolType, PrepareUploadRequestDto, PrepareUploadResponseDto, Json}
use localsend_uyava.Http.Lru.{Lru}
use localsend_uyava.Http.Reply.{Reply, ok, err, Act, continue}
use localsend_uyava.Http.Client.{
  Response, LsHttpClient, Transport, url, certificate, key_for, verify_cert_from_res, send,
  check_key, json_of, fail_with_status, status_code_error_from_res, prepare_upload,
}

-- Inversion of `?`.
pub continue-eq-ok :
    {S E A B : Type 0} (r : Reply E A × S) (f : A → Act S E B) (b : B) (s : S)
    → continue r f ≡ (ok b, s)
    → (a : A) × (t : S) × (r ≡ (ok a, t)) × (f a t ≡ (ok b, s))
continue-eq-ok (ok a, t) f b s h = (a, t, refl, h)
continue-eq-ok (err e, t) f b s h = cc

module _ (x : X509) where
  -- The other end's certificate is there, and good for this key.
  abbrev pub HasKey : Response → Text → Type 0
  HasKey response key =
      (cert : Bytes) × (response.tls_info ≡ some (some cert))
      × (verify_cert_from_der x cert (some key) ≡ Result.ok tt)

  certificate_sound :
      (response : Response) (cert : Bytes)
      → certificate x response ≡ Result.ok cert
      → response.tls_info ≡ some (some cert)
  unfolding certificate
  certificate_sound response cert h = go response.tls_info h
    where
      go :
          (o : Option (Option Bytes))
          → certificate x (record response { tls_info = o }) ≡ Result.ok cert
          → o ≡ some (some cert)
      go none e = cc
      go (some none) e = cc
      go (some (some b)) e = cc

  asked_key :
      (cert : Bytes) (public_key : Option Text) (asked k : Text)
      → key_for x cert public_key ≡ Result.ok k
      → public_key ≡ some asked
      → asked ≡ k
  unfolding key_for
  asked_key cert none asked k found given = cc
  asked_key cert (some t) asked k found given = cc

  -- The key that is given back is that of a certificate that passes the checks with it, and the key
  -- that was asked for if there was one.
  pub verify_cert_from_res_sound :
      (response : Response) (public_key : Option Text) (key : Text)
      → verify_cert_from_res x response public_key ≡ Result.ok key
      → HasKey response key × ((asked : Text) → public_key ≡ some asked → asked ≡ key)
  unfolding verify_cert_from_res key_for
  verify_cert_from_res_sound response public_key key h =
      let (cert, there, h1) = >>=-eq-ok (certificate x response) _ h in
      let (k, found, h2) = >>=-eq-ok (key_for x cert public_key) _ h1 in
      let (u, good, h3) = >>=-eq-ok (verify_cert_from_der x cert (some k)) _ h2 in
      let e : k ≡ key = cc in
      (
        (
          cert,
          certificate_sound response cert there,
          subst (λ t. verify_cert_from_der x cert (some t) ≡ Result.ok tt) e good,
        ),
        λ asked given. asked_key cert public_key asked k found given ∙ e,
      )

module _ (json : Json) (l : Lru) (c : Crypto) (x : X509) (N : Type 0)
    (transport : Transport N) where
  -- The transport brings this response to the request.
  abbrev pub Answers : Text → Bytes → LsHttpClient l N → Response → Type 0
  Answers url body client response = (transport url body client.network).0 ≡ Result.ok response

  abbrev Client : Type 0
  Client = LsHttpClient l N

  send_sound :
      (url : Text) (body : Bytes) (client after : Client) (response : Response)
      → send json l c x N transport url body client ≡ (ok response, after)
      → Answers url body client response
  unfolding send
  send_sound url body client after response h = go (transport url body client.network).0 refl
    where
      go :
          (r : Result Response)
          → (transport url body client.network).0 ≡ r
          → Answers url body client response
      go (Result.ok sent) e = cc
      go (Result.err message) e = cc

  check_key_sound :
      (public_key : Text) (response : Response) (client after : Client)
      → check_key json l c x N transport (some public_key) response client ≡ (ok tt, after)
      → HasKey x response public_key
  check_key_sound public_key response client after h =
      go (verify_cert_from_res x response (some public_key)) refl
    where
      go :
          (r : Result Text)
          → verify_cert_from_res x response (some public_key) ≡ r
          → HasKey x response public_key
      go (Result.ok key) e =
          let (has, same) = verify_cert_from_res_sound x response (some public_key) key e in
          subst (HasKey x response) (sym (same public_key refl)) has
      go (Result.err message) e = let k = rw e at h in cc

  -- The methods end with an error after an error status.
  fail_with_status_lem :
      {A : Type 0} (response : Response) (client after : Client) (a : A)
      → fail_with_status json l c x N transport response client ≡ (ok a, after)
      → ⊥
  unfolding fail_with_status status_code_error_from_res
  fail_with_status_lem response client after a h = go response.body refl
    where
      go : (r : Result Bytes) → response.body ≡ r → ⊥
      go (Result.ok bytes) e = let k = rw e at h in cc
      go (Result.err message) e = let k = rw e at h in cc

  json_of_sound :
      {A : Type 0} (codec : Codec A) (response : Response) (client after : Client) (a : A)
      → json_of json l c x N transport codec response client ≡ (ok a, after)
      → (bytes : Bytes) × (response.body ≡ Result.ok bytes) × (codec.from_slice bytes ≡ some a)
  unfolding json_of
  json_of_sound {A = A} codec response client after a h = go response.body refl
    where
      parse :
          (bytes : Bytes) (o : Option A)
          → response.body ≡ Result.ok bytes
          → codec.from_slice bytes ≡ o
          → (bytes : Bytes) × (response.body ≡ Result.ok bytes) × (codec.from_slice bytes ≡ some a)
      parse bytes none e p = let k = rw (e, p) at h in cc
      parse bytes (some b) e p = let k = rw (e, p) at h in (bytes, e, p ∙ cc)

      go :
          (r : Result Bytes)
          → response.body ≡ r
          → (bytes : Bytes) × (response.body ≡ Result.ok bytes) × (codec.from_slice bytes ≡ some a)
      go (Result.ok bytes) e = parse bytes (codec.from_slice bytes) e refl
      go (Result.err message) e = let k = rw e at h in cc

  -- Where a public key is given, `prepare_upload` gives a result only if the response has status 200
  -- and a body that parses to the result, and comes over TLS from a server whose certificate passes
  -- the checks with that key.
  pub prepare_upload_sound :
      (protocol : ProtocolType) (ip : Text) (port : ℕ) (public_key : Text)
      (payload : PrepareUploadRequestDto) (client after : LsHttpClient l N)
      (result : PrepareUploadResponseDto)
      → prepare_upload json l c x N transport protocol ip port (some public_key) payload client
        ≡ (ok result, after)
      → (response : Response) × (bytes : Bytes) × Answers
          (url protocol ip port (ascii "/prepare-upload"))
          (json.prepare_upload.to_string payload)
          client
          response
        × HasKey x response public_key
        × (response.status ≡ 200)
        × (response.body ≡ Result.ok bytes)
        × (json.prepare_upload_response.from_slice bytes ≡ some result)
  unfolding prepare_upload send json_of
  prepare_upload_sound protocol ip port public_key payload client after result h =
      let (response, s1, sent, h1) =
        continue-eq-ok
          (send json l c x N transport (url protocol ip port (ascii "/prepare-upload"))
            (json.prepare_upload.to_string payload) client)
          _ _ _ h in
      let (u, s2, checked, h2) =
        continue-eq-ok (check_key json l c x N transport (some public_key) response s1) _ _ _ h1 in
      elim (Bool-cases (response.status == 200)) [
        | inl good ↦
            let k = rw good at h2 in
            let (bytes, read, parsed) =
              json_of_sound json.prepare_upload_response response s2 after result k in
            (
              response,
              bytes,
              send_sound _ _ client s1 response sent,
              check_key_sound public_key response s1 s2 checked,
              (nat_eq_iff response.status 200).0 good,
              read,
              parsed,
            )
        | inr bad ↦ let k = rw bad at h2 in absurd (fail_with_status_lem response s2 after result k)
      ]
