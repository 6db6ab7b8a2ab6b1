-- ===== src/Server/Upgrade/Forwarded.antt =====
-- Which part of the header `x-forwarded-for` counts.
use localsend_uyava.Prelude.{
  ℕ, ℕ-Eq, ◌==◌, ==-refl, ◌≡◌, refl, sym, ap, ◌∙◌, List, [], ◌∷◌, ◌++◌, some, Bytes, Text,
  Bool-cases, inl, inr,
}
use localsend_uyava.Signaling.{Uuid}
use localsend_uyava.Server.IpGroup.{IpAddr}
use localsend_uyava.Server.Upgrade.{
  Web, split_on, last, upgrade, and_then, or_else, peer_info, raw_forwarded, ws_handler,
}

split_on-nonempty :
    (separator : ℕ) (s : Text) → (t : Text) × (more : List Text) × (split_on separator s ≡ t ∷ more)
unfolding split_on
split_on-nonempty separator [] = ([], [], refl)
split_on-nonempty separator (c ∷ s) =
    let (t, more, e) = split_on-nonempty separator s in
    elim (Bool-cases (c == separator)) [
      | inl same ↦ ([], t ∷ more, rw (same, e) refl)
      | inr other ↦ (c ∷ t, more, rw (other, e) refl)
    ]

-- What stands behind a separator is split by itself.
split_on-append :
    (separator : ℕ) (p s : Text)
    → (t : Text) × (before : List Text) × (split_on separator (p ++ separator ∷ s)
        ≡ t ∷ (before ++ split_on separator s))
unfolding split_on
split_on-append separator [] s = ([], [], rw (==-refl separator) refl)
split_on-append separator (c ∷ p) s =
    let (t, before, e) = split_on-append separator p s in
    elim (Bool-cases (c == separator)) [
      | inl same ↦ ([], t ∷ before, rw (same, e) refl)
      | inr other ↦ (c ∷ t, before, rw (other, e) refl)
    ]

last-append :
    (before : List Text) (t : Text) (more : List Text) → last (before ++ t ∷ more) ≡ last (t ∷ more)
unfolding last
last-append [] t more = refl
last-append (b ∷ []) t more = refl
last-append (b ∷ next ∷ before) t more = last-append (next ∷ before) t more

last-split_on :
    (separator : ℕ) (p s : Text)
    → last (split_on separator (p ++ separator ∷ s)) ≡ last (split_on separator s)
last-split_on separator p s =
    let (t, before, e) = split_on-append separator p s in
    let (u, more, n) = split_on-nonempty separator s in
    ap last e
    ∙ (ap (λ l. last ((t ∷ before) ++ l)) n ∙ (last-append (t ∷ before) u more ∙ ap last (sym n)))

raw_forwarded-last :
    (web : Web) (forged honest : Bytes) (p s : Text)
    → web.to_str forged ≡ some (p ++ b',' ∷ s)
    → web.to_str honest ≡ some s
    → raw_forwarded web (some forged) ≡ raw_forwarded web (some honest)
unfolding raw_forwarded
raw_forwarded-last web forged honest p s read read' =
    rw (read, read')
      (ap (λ o. and_then o (λ component. web.parse_ip (web.trim component)))
        (last-split_on b',' p s))

-- A request is treated alike whatever its client has put in front of the last comma of
-- `x-forwarded-for`: with the text of the header's value read as it is, the group of a socket
-- depends on what follows the comma only.
pub ws_handler-forwarded :
    (web : Web) (d : Text) (id : Uuid) (forged honest : Bytes) (p s : Text) (addr : IpAddr)
    → web.to_str forged ≡ some (p ++ b',' ∷ s)
    → web.to_str honest ≡ some s
    → ws_handler web d id (some forged) addr ≡ ws_handler web d id (some honest) addr
unfolding ws_handler
ws_handler-forwarded web d id forged honest p s addr read read' =
    ap (λ ip. upgrade (or_else ip addr) (peer_info web d id))
      (raw_forwarded-last web forged honest p s read read')
