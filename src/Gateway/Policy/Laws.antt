-- ===== src/Gateway/Policy/Laws.antt =====
-- When an agent is put into transparent mode.
use https_proxy.Base.{
  ◌≡◌, ◌≢◌, ◌↔◌, refl, ◌⊎◌, true, false, ◌++◌, List, [], ◌∷◌, arith, or_iff, if-true,
}
use https_proxy.Base.Text.{
  Text, text_eq, text_mem, has_prefix, text_eq_iff, has_prefix→append, has_prefix-append,
}
use https_proxy.Shared.Modes.{proxy_mode_legacy_framed, proxy_mode_transparent_tunnel}
use https_proxy.Gateway.Policy.{Config, any_prefix, is_transparent_allowed, resolve_proxy_mode}

abbrev pub AnyOf {ℓ} : {A : Type ℓ} → (A → Type 0) → List A → Type 0
AnyOf P [] = ⊥
AnyOf P (x ∷ xs) = P x ⊎ AnyOf P xs

text_mem_iff : (t : Text) (ws : List Text) → (text_mem t ws ≡ true) ↔ AnyOf (λ w. t ≡ w) ws
text_mem_iff t [] = (λ h. cc, λ h. absurd h)
text_mem_iff t (w ∷ ws) = or_iff (text_eq t w) (text_mem t ws) (text_eq_iff t w) (text_mem_iff t ws)

any_prefix_iff :
    (t : Text) (ps : List Text)
    → (any_prefix t ps ≡ true) ↔ AnyOf (λ p. (r : Text) × (t ≡ p ++ r)) ps
any_prefix_iff t [] = (λ h. cc, λ h. absurd h)
any_prefix_iff t (p ∷ ps) =
    or_iff (has_prefix t p) (any_prefix t ps)
      (has_prefix→append t p, λ (r, e). rw e (has_prefix-append p r)) (any_prefix_iff t ps)

-- What the operator has allowed: a uuid that is listed, or that begins with a listed prefix.
abbrev pub IsAllowed : Config → Text → Type 0
IsAllowed s uuid =
    (uuid ≢ [])
    × (AnyOf (λ w. uuid ≡ w) s.transparent_allow_uuid_set
        ⊎ AnyOf (λ p. (r : Text) × (uuid ≡ p ++ r)) s.transparent_allow_prefixes)

is_transparent_allowed_iff :
    (s : Config) (uuid : Text) → (is_transparent_allowed s uuid ≡ true) ↔ IsAllowed s uuid
unfolding is_transparent_allowed
is_transparent_allowed_iff s [] = (λ h. cc, λ h. absurd (h.0 refl))
is_transparent_allowed_iff s (a ∷ u) =
    let listed =
      or_iff (text_mem (a ∷ u) s.transparent_allow_uuid_set)
        (any_prefix (a ∷ u) s.transparent_allow_prefixes)
        (text_mem_iff (a ∷ u) s.transparent_allow_uuid_set)
        (any_prefix_iff (a ∷ u) s.transparent_allow_prefixes) in
    rw if-true (λ h. (λ e. cc, listed.0 h), λ h. listed.1 h.1)

pub resolved :
    (s : Config) (uuid requested : Text)
    → ((resolve_proxy_mode s uuid requested).0 ≡ proxy_mode_transparent_tunnel) ↔ (
        (requested ≡ proxy_mode_transparent_tunnel)
        × (s.transparent_enabled ≡ true)
        × (s.force_legacy_mode ≡ false)
        × (is_transparent_allowed s uuid ≡ true))
unfolding resolve_proxy_mode
resolved s uuid requested =
    let same = text_eq_iff requested proxy_mode_transparent_tunnel in
    (λ h. ground (arith, same), λ h. ground (arith, same))

pub two_modes :
    (s : Config) (uuid requested : Text)
    → ((resolve_proxy_mode s uuid requested).0 ≡ proxy_mode_transparent_tunnel)
      ⊎ ((resolve_proxy_mode s uuid requested).0 ≡ proxy_mode_legacy_framed)
unfolding resolve_proxy_mode
two_modes s uuid requested = ground arith

-- The effective mode is transparent exactly when the agent asked for it, transparent mode is enabled
-- and not overridden, and the operator has allowed the agent; otherwise it is the legacy mode.
pub resolve_proxy_mode_iff :
    (s : Config) (uuid requested : Text)
    → (((resolve_proxy_mode s uuid requested).0 ≡ proxy_mode_transparent_tunnel) ↔ (
        (requested ≡ proxy_mode_transparent_tunnel)
        × (s.transparent_enabled ≡ true)
        × (s.force_legacy_mode ≡ false)
        × IsAllowed s uuid))
      × (((resolve_proxy_mode s uuid requested).0 ≡ proxy_mode_transparent_tunnel)
          ⊎ ((resolve_proxy_mode s uuid requested).0 ≡ proxy_mode_legacy_framed))
resolve_proxy_mode_iff s uuid requested =
    let (into, onto) = resolved s uuid requested in
    let allowed = is_transparent_allowed_iff s uuid in
    (
      (
        λ h. let (r, e, f, w) = into h in (r, e, f, allowed.0 w),
        λ (r, e, f, w). onto (r, e, f, allowed.1 w),
      ),
      two_modes s uuid requested,
    )
