-- ===== src/Rpc/Access.antt =====
-- The authentication of `_handle_rpc` (agent/rpc_server.py, lines 222 to 239).
use bitchchain.Base.{
  ◌≡◌, ◌≢◌, refl, ◌↔◌, inl, inr, true, ◌&&◌, Option, none, some, Text, text, text_beq, text_beq_iff,
  ℕ, [], ◌∷◌, ◌++◌, ◌==◌, ==_iff, false, ap, ◌∙◌, Option-cases, take, drop, Error, arith,
  Bool-cases,
}
use mathlib.Core.Path.{ap₂, subst}
use bitchchain.Json.{Json}
use bitchchain.Rpc.{
  Server, is_true, split_colon, credentials_of, check_credentials, authenticate, handle_rpc,
}

-- Both a user and a password are set.
abbrev pub IsGuarded : {S : Type 0} → Server S → Type 0
IsGuarded server =
    (is_true (Json.str server.rpc_user) && is_true (Json.str server.rpc_password)) ≡ true

-- A text without a colon.
abbrev pub HasNoColon : Text → Type 0
HasNoColon [] = Unit
HasNoColon (c ∷ s) = (c ≢ b':') × HasNoColon s

-- The header carries the server's user and password: behind "Basic " it decodes to the user, who has
-- no colon, a colon and the password.
abbrev pub IsAuthorized : {S : Type 0} → (Text → Option Text) → Server S → Text → Type 0
IsAuthorized decode_basic server header =
    (take 6 header ≡ text "Basic ")
    × (decode_basic (drop 6 header) ≡ some (server.rpc_user ++ b':' ∷ server.rpc_password))
    × HasNoColon server.rpc_user

-- A text is cut at its first colon.
split_colon-parts :
    (decoded user password : Text)
    → split_colon decoded ≡ some (user, password)
    → (decoded ≡ user ++ b':' ∷ password) × HasNoColon user
unfolding split_colon
split_colon-parts [] user password h = absurd (cc h)
split_colon-parts (c ∷ s) user password h = elim (Bool-cases (c == b':')) [
  | inl colon ↦
      let cut : some ([], s) ≡ some (user, password) = rw colon at h in
      let none_before : [] ≡ user = cc cut in
      let behind : s ≡ password = cc cut in
      subst (λ (u : Text). (c ∷ s ≡ u ++ b':' ∷ password) × HasNoColon u) none_before
        (ap₂ (λ (x : ℕ) (y : Text). x ∷ y) ((==_iff c b':').0 colon) behind, tt)
  | inr other ↦ elim (Option-cases (split_colon s)) [
    | inl missing ↦ absurd (cc (rw (other, missing) at h))
    | inr ((before, after), found) ↦
        let ne : c ≢ b':' = ground (arith, ==_iff c b':') in
        let (whole, clean) = split_colon-parts s before after found in
        let cut : some (c ∷ before, after) ≡ some (user, password) = rw (other, found) at h in
        let here : c ∷ before ≡ user = cc cut in
        let behind : after ≡ password = cc cut in
        subst (λ (u : Text). (c ∷ s ≡ u ++ b':' ∷ password) × HasNoColon u) here
          (
            ap (λ (t : Text). c ∷ t) (whole ∙ ap (λ (t : Text). before ++ b':' ∷ t) behind),
            (ne, clean),
          )
  ]
]

split_colon-append :
    (user password : Text)
    → HasNoColon user
    → split_colon (user ++ b':' ∷ password) ≡ some (user, password)
unfolding split_colon
split_colon-append [] password clean = refl
split_colon-append (c ∷ user) password clean =
    let other : (c == b':') ≡ false = ground (arith, ==_iff c b':') in
    rw (other, split_colon-append user password clean.1) refl

credentials_of_iff :
    (decoded : Option Text) (user password : Text)
    → (credentials_of decoded ≡ some (user, password))
      ↔ ((decoded ≡ some (user ++ b':' ∷ password)) × HasNoColon user)
credentials_of_iff none user password = (λ e. absurd (cc e), λ h. absurd (cc h.0))
credentials_of_iff (some decoded) user password = (
  λ e. let (whole, clean) = split_colon-parts decoded user password e in (ap some whole, clean),
  λ h.
      let same : decoded ≡ user ++ b':' ∷ password = cc h.0 in
      ap split_colon same ∙ split_colon-append user password h.1,
)

check_credentials_iff :
    {S : Type 0} (server : Server S) (found : Option (Text × Text))
    → (check_credentials server found ≡ none)
      ↔ (found ≡ some (server.rpc_user, server.rpc_password))
check_credentials_iff server none = (λ e. absurd (cc e), λ e. absurd (cc e))
check_credentials_iff server (some (user, password)) =
    ground (arith, text_beq_iff user server.rpc_user, text_beq_iff password server.rpc_password)

module _ (decode_basic : Text → Option Text) {S : Type 0} (server : Server S) where
  -- A server with a user and a password lets through exactly the headers that carry both: "Basic "
  -- and an encoding of the user, a colon and the password. A user with a colon is never let through.
  pub authenticate_iff :
      (header : Text)
      → IsGuarded server
      → (authenticate decode_basic server header ≡ none) ↔ IsAuthorized decode_basic server header
  unfolding authenticate
  authenticate_iff header guarded =
      let parsed =
        credentials_of_iff (decode_basic (drop 6 header)) server.rpc_user server.rpc_password in
      let checked = check_credentials_iff server (credentials_of (decode_basic (drop 6 header))) in
      elim (Bool-cases (text_beq (take 6 header) (text "Basic "))) [
        | inl basic ↦
            rw (guarded, basic)
              (
                λ e.
                    let (whole, clean) = parsed.0 (checked.0 e) in
                    ((text_beq_iff (take 6 header) (text "Basic ")).0 basic, whole, clean),
                λ h. checked.1 (parsed.1 (h.1, h.2)),
              )
        | inr other ↦
            rw (guarded, other)
              (
                λ e. absurd (cc e),
                λ h. absurd (cc (other, (text_beq_iff (take 6 header) (text "Basic ")).1 h.0)),
              )
      ]

  -- The state behind a server with a user and a password changes only by a request whose header
  -- carries both.
  pub handle_rpc-IsAuthorized :
      (show : Json → Text) (show_error : Error → Text) (loads : Text → Option Json)
      (header body : Text) (state : S)
      → IsGuarded server
      → (handle_rpc show show_error decode_basic loads server header body state).1 ≢ state
      → IsAuthorized decode_basic server header
  unfolding handle_rpc
  handle_rpc-IsAuthorized show show_error loads header body state guarded changed =
      passed (authenticate decode_basic server header) refl
    where
      passed :
          (answer : Option Json)
          → authenticate decode_basic server header ≡ answer
          → IsAuthorized decode_basic server header
      passed none e = (authenticate_iff header guarded).0 e
      passed (some response) e = absurd (changed (rw (handle_rpc, e) refl))
