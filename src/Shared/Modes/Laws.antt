-- ===== src/Shared/Modes/Laws.antt =====
-- The normal forms of proxy modes and target kinds.
use https_proxy.Base.{◌≡◌, ◌⊎◌, inl, inr, [], ◌∷◌, if_elim}
use https_proxy.Base.Text.{Text, codes, text_eq, text_mem, trim_space, to_lower}
use https_proxy.Base.Results.{ok}
use https_proxy.Shared.Modes.{
  proxy_mode_of, normalize_proxy_mode, target_kind_of, normalize_target_kind,
  proxy_mode_legacy_framed, proxy_mode_transparent_tunnel, target_kind_unknown, target_kind_http,
  target_kind_tcp, target_kind_web_socket,
}

abbrev pub IsProxyMode : Text → Type 0
IsProxyMode m = (m ≡ proxy_mode_legacy_framed) ⊎ (m ≡ proxy_mode_transparent_tunnel)

abbrev pub IsTargetKind : Text → Type 0
IsTargetKind k =
    (k ≡ target_kind_unknown)
    ⊎ (k ≡ target_kind_http)
    ⊎ (k ≡ target_kind_tcp)
    ⊎ (k ≡ target_kind_web_socket)

proxy_mode_of-IsProxyMode : (raw value m : Text) → proxy_mode_of raw value ≡ ok m → IsProxyMode m
unfolding proxy_mode_of
proxy_mode_of-IsProxyMode raw value m =
    if_elim (λ r. r ≡ ok m → IsProxyMode m)
      (text_mem value ([] ∷ codes "legacy" ∷ proxy_mode_legacy_framed ∷ [])) (λ _ e. inl (cc e))
      (λ _.
        if_elim (λ r. r ≡ ok m → IsProxyMode m)
          (text_mem value (codes "transparent" ∷ proxy_mode_transparent_tunnel ∷ []))
          (λ _ e. inr (cc e)) (λ _ e. cc e))

target_kind_of-IsTargetKind :
    (raw value k : Text) → target_kind_of raw value ≡ ok k → IsTargetKind k
unfolding target_kind_of
target_kind_of-IsTargetKind raw value k =
    if_elim (λ r. r ≡ ok k → IsTargetKind k) (text_mem value ([] ∷ target_kind_unknown ∷ []))
      (λ _ e. inl (cc e))
      (λ _.
        if_elim (λ r. r ≡ ok k → IsTargetKind k)
          (text_mem value (target_kind_http ∷ codes "https" ∷ [])) (λ _ e. inr (inl (cc e)))
          (λ _.
            if_elim (λ r. r ≡ ok k → IsTargetKind k) (text_eq value target_kind_tcp)
              (λ _ e. inr (inr (inl (cc e))))
              (λ _.
                if_elim (λ r. r ≡ ok k → IsTargetKind k)
                  (text_mem value (target_kind_web_socket ∷ codes "wss" ∷ []))
                  (λ _ e. inr (inr (inr (cc e)))) (λ _ e. cc e))))

fixed_mode : (m : Text) → IsProxyMode m → normalize_proxy_mode m ≡ ok m
unfolding normalize_proxy_mode to_lower trim_space
fixed_mode m (inl e) = rw e
fixed_mode m (inr e) = rw e

pub fixed_kind : (k : Text) → IsTargetKind k → normalize_target_kind k ≡ ok k
unfolding normalize_target_kind to_lower trim_space
fixed_kind k (inl e) = rw e
fixed_kind k (inr (inl e)) = rw e
fixed_kind k (inr (inr (inl e))) = rw e
fixed_kind k (inr (inr (inr e))) = rw e

-- A proxy mode that is accepted is one of the two canonical ones, and normalizing that again gives
-- it back.
pub normalize_proxy_mode_idem :
    (raw m : Text)
    → normalize_proxy_mode raw ≡ ok m
    → IsProxyMode m × (normalize_proxy_mode m ≡ ok m)
normalize_proxy_mode_idem raw m h =
    let is : IsProxyMode m =
      proxy_mode_of-IsProxyMode raw (to_lower (trim_space raw)) m
        (unfold normalize_proxy_mode in h) in
    (is, fixed_mode m is)

-- A target kind that is accepted is one of the four canonical ones, and normalizing that again gives
-- it back.
pub normalize_target_kind_idem :
    (raw k : Text)
    → normalize_target_kind raw ≡ ok k
    → IsTargetKind k × (normalize_target_kind k ≡ ok k)
normalize_target_kind_idem raw k h =
    let is : IsTargetKind k =
      target_kind_of-IsTargetKind raw (to_lower (trim_space raw)) k
        (unfold normalize_target_kind in h) in
    (is, fixed_kind k is)
