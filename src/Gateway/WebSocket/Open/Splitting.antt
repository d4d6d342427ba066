-- ===== src/Gateway/WebSocket/Open/Splitting.antt =====
-- What an agent can put into the response to a client whose connection is taken over.
use https_proxy.Base.{
  true, false, not, List, [], ◌∷◌, All, if◌then◌else◌, ◌==◌, ◌||◌, ◌&&◌, ltb, ◌≡◌, ◌≢◌, ◌∙◌, sym,
  ap, subst, refl, arith, if_elim,
}
use https_proxy.Base.Text.{Text, codes, is_empty, trim_space}
use https_proxy.Base.Results.{Result, ok, err}
use https_proxy.Proto.Types.{Header, WsOpenOk}
use https_proxy.Shared.Headers.{get}
use https_proxy.Gateway.WebSocket.Modes.{check_value, sanitize_web_socket_header_value, HeaderError}
use https_proxy.Gateway.WebSocket.Open.{
  Hijacker, HijackError, invalid_subprotocol, invalid_extensions, hijack_and_write,
  sanitize_extensions, switching_protocols, web_socket_accept, write_switching,
}

-- Text that cannot end a line of a header.
abbrev pub NoBreak : Text → Type 0
NoBreak = All (λ b. (b ≢ 13) × (b ≢ 10) × (b ≢ 0))

-- A property of what a function returns where it succeeds.
abbrev pub Succeeds {ℓ κ} : {E : Type 0} {A : Type ℓ} → (A → Type κ) → Result E A → Type κ
Succeeds P (ok a) = P a
Succeeds P (err e) = Unit

check_value-NoBreak : (s : Text) → Succeeds (λ _. NoBreak s) (check_value s)
unfolding check_value
check_value-NoBreak [] = tt
check_value-NoBreak (b ∷ s) =
    if_elim (Succeeds (λ _. NoBreak (b ∷ s))) (b == 13 || (b == 10 || b == 0)) (λ _. tt)
      (λ clean.
        if_elim (Succeeds (λ _. NoBreak (b ∷ s))) ((ltb b 0x20 && not (b == 9)) || b == 0x7f)
          (λ _. tt) (λ _. go (check_value s) (no_break clean) (check_value-NoBreak s)))
  where
    no_break : (b == 13 || (b == 10 || b == 0)) ≡ false → (b ≢ 13) × (b ≢ 10) × (b ≢ 0)
    no_break clean = ground arith

    go :
        (x : Result HeaderError (Unit {0}))
        → (b ≢ 13) × (b ≢ 10) × (b ≢ 0)
        → Succeeds (λ _. NoBreak s) x
        → Succeeds (λ _. NoBreak (b ∷ s)) x
    go (ok u) h hs = (h, hs)
    go (err e) h hs = tt

Succeeds-map {ℓ κ ι} :
    {E : Type 0} {A : Type ℓ} {P : A → Type κ} {Q : A → Type ι} (x : Result E A)
    → ((a : A) → P a → Q a)
    → Succeeds P x
    → Succeeds Q x
Succeeds-map (ok a) f h = f a h
Succeeds-map (err e) f h = tt

blank_is_nil : (s : Text) → is_empty s ≡ true → [] ≡ s
blank_is_nil [] h = refl
blank_is_nil (b ∷ s) h = cc

-- A value without line breaks, which is the raw one without the spaces around it.
abbrev pub IsClean : Text → Text → Type 0
IsClean raw v = NoBreak v × (v ≡ trim_space raw)

sanitize-IsClean : (raw : Text) → Succeeds (IsClean raw) (sanitize_web_socket_header_value raw)
unfolding sanitize_web_socket_header_value
sanitize-IsClean raw =
    if_elim (Succeeds (IsClean raw)) (is_empty (trim_space raw))
      (λ blank. (tt, blank_is_nil (trim_space raw) blank))
      (λ _. go (check_value (trim_space raw)) (check_value-NoBreak (trim_space raw)))
  where
    go :
        (x : Result HeaderError (Unit {0}))
        → Succeeds (λ _. NoBreak (trim_space raw)) x
        → Succeeds (IsClean raw) (elim x [ err e ↦ err e | ok u ↦ ok (trim_space raw) ])
    go (ok u) h = (h, refl)
    go (err e) h = tt

-- The extensions that are not blank, without the spaces around them.
abbrev pub offered : List Text → List Text
offered [] = []
offered (raw ∷ raws) =
    let rest = offered raws in if is_empty (trim_space raw) then rest else trim_space raw ∷ rest

abbrev pub AreClean : List Text → List Text → Type 0
AreClean raws exts = All NoBreak exts × (exts ≡ offered raws)

offered_blank :
    (raw ext : Text) (raws exts : List Text)
    → ext ≡ trim_space raw
    → is_empty ext ≡ true
    → AreClean raws exts
    → AreClean (raw ∷ raws) exts
offered_blank raw ext raws exts same blank (h, e) = (
  h,
  e
      ∙ ap (λ b. if b then offered raws else trim_space raw ∷ offered raws)
          (sym blank ∙ ap is_empty same),
)

offered_cons :
    (raw ext : Text) (raws exts : List Text)
    → IsClean raw ext
    → is_empty ext ≡ false
    → AreClean raws exts
    → AreClean (raw ∷ raws) (ext ∷ exts)
offered_cons raw ext raws exts (clean, same) filled (h, e) = (
  (clean, h),
  ap (λ l. ext ∷ l) e
      ∙ ap (λ t. t ∷ offered raws) same
      ∙ ap (λ b. if b then offered raws else trim_space raw ∷ offered raws)
          (sym filled ∙ ap is_empty same),
)

sanitize_extensions-AreClean :
    (raws : List Text) → Succeeds (AreClean raws) (sanitize_extensions raws)
unfolding sanitize_extensions
sanitize_extensions-AreClean [] = (tt, refl)
sanitize_extensions-AreClean (raw ∷ raws) =
    go (sanitize_web_socket_header_value raw) (sanitize-IsClean raw)
      (sanitize_extensions-AreClean raws)
  where
    join :
        (ext : Text) (rest : Result HijackError (List Text))
        → IsClean raw ext
        → is_empty ext ≡ false
        → Succeeds (AreClean raws) rest
        → Succeeds (AreClean (raw ∷ raws)) (elim rest [ err e ↦ err e | ok exts ↦ ok (ext ∷ exts) ])
    join ext (ok exts) h filled hs = offered_cons raw ext raws exts h filled hs
    join ext (err e) h filled hs = tt

    go :
        (x : Result HeaderError Text)
        → Succeeds (IsClean raw) x
        → Succeeds (AreClean raws) (sanitize_extensions raws)
        → Succeeds (AreClean (raw ∷ raws)) (elim x [
          | err e ↦ err invalid_extensions
          | ok ext ↦
              if is_empty ext
              then sanitize_extensions raws
              else elim (sanitize_extensions raws) [ err e ↦ err e | ok exts ↦ ok (ext ∷ exts) ]
        ])
    go (err e) h hs = tt
    go (ok ext) h hs =
        if_elim (Succeeds (AreClean (raw ∷ raws))) (is_empty ext)
          (λ blank.
            Succeeds-map (sanitize_extensions raws)
              (λ exts c. offered_blank raw ext raws exts (h.1) blank c) hs)
          (λ filled. join ext (sanitize_extensions raws) h filled hs)

-- A response with the source's lines and the agent's subprotocol and extensions, without the spaces around
-- them, in which these hold no byte that ends a line.
abbrev pub HasOwnLines : Text → WsOpenOk → Text → Type 0
HasOwnLines accept m response =
    NoBreak (trim_space m.subprotocol)
    × All NoBreak (offered m.extensions)
    × (response ≡ switching_protocols accept (trim_space m.subprotocol) (offered m.extensions))

abbrev accept_of : Hijacker → Header → Text
accept_of j h = web_socket_accept j (trim_space (get h (codes "Sec-WebSocket-Key")))

abbrev Fine : Hijacker → Header → WsOpenOk → Result HijackError Text → Type 0
Fine j h m = Succeeds (HasOwnLines (accept_of j h) m)

write_switching-HasOwnLines :
    (j : Hijacker) (h : Header) (m : WsOpenOk) (sp : Text) (exts : List Text)
    → IsClean m.subprotocol sp
    → AreClean m.extensions exts
    → Fine j h m (write_switching j (get h (codes "Sec-WebSocket-Key")) sp exts)
write_switching-HasOwnLines j h m sp exts (clean, same) (all_clean, all_same) =
    if_elim (Fine j h m) (is_empty (trim_space (get h (codes "Sec-WebSocket-Key")))) (λ _. tt)
      (λ _.
        if_elim (Fine j h m) (not j.hijacks) (λ _. tt)
          (λ _.
            if_elim (Fine j h m) (j.takes (switching_protocols (accept_of j h) sp exts))
              (λ _. (
                subst NoBreak same clean,
                subst (All NoBreak) all_same all_clean,
                ap (λ t. switching_protocols (accept_of j h) t exts) same
                    ∙ ap (switching_protocols (accept_of j h) (trim_space m.subprotocol)) all_same,
              ))
              (λ _. tt)))

-- Where the client's connection is taken over, the client is sent exactly the lines that the source writes,
-- with the subprotocol and the extensions that the agent's answer names. These have no spaces around them
-- and hold no byte that ends a line.
pub hijack_and_write-HasOwnLines :
    (j : Hijacker) (h : Header) (m : WsOpenOk)
    → Succeeds
        (HasOwnLines (web_socket_accept j (trim_space (get h (codes "Sec-WebSocket-Key")))) m)
        (hijack_and_write j h m)
unfolding hijack_and_write
hijack_and_write-HasOwnLines j h m =
    if_elim (Fine j h m) (not j.supported) (λ _. tt)
      (λ _. go (sanitize_web_socket_header_value m.subprotocol) (sanitize-IsClean m.subprotocol))
  where
    with_extensions :
        (sp : Text) (y : Result HijackError (List Text))
        → IsClean m.subprotocol sp
        → Succeeds (AreClean m.extensions) y
        → Fine j h m (elim y [
          | err e ↦ err e
          | ok exts ↦ write_switching j (get h (codes "Sec-WebSocket-Key")) sp exts
        ])
    with_extensions sp (err e) clean hs = tt
    with_extensions sp (ok exts) clean hs = write_switching-HasOwnLines j h m sp exts clean hs

    go :
        (x : Result HeaderError Text)
        → Succeeds (IsClean m.subprotocol) x
        → Fine j h m (elim x [
          | err e ↦ err invalid_subprotocol
          | ok sp ↦ elim (sanitize_extensions m.extensions) [
            | err e ↦ err e
            | ok exts ↦ write_switching j (get h (codes "Sec-WebSocket-Key")) sp exts
          ]
        ])
    go (err e) h' = tt
    go (ok sp) h' =
        with_extensions sp (sanitize_extensions m.extensions) h'
          (sanitize_extensions-AreClean m.extensions)
