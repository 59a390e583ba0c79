-- ===== src/Client/Security.antt =====
-- client.rs, `choose_security`: what is chosen was offered, and only a choice is written.
use bolide.Base.{
  contains, ℕ, Bool, true, false, ◌&&◌, List, Returns, Returns-if, ◌≡◌, ◌≢◌, ◌⊎◌, inl, inr, refl,
  arith,
}
use bolide.Proto.{security_none, security_vnc_auth, security_ard}
use bolide.Client.{AuthMode, auto, ard, vnc, Config, is_some, pick_auto, pick}

-- The type was offered. It is the one that a forcing mode names; without a forcing mode it is None
-- only where there is no password or no VNC authentication to use it for.
abbrev pub Allowed : AuthMode → Config → List ℕ → ℕ → Type 0
Allowed ard config offered t = (contains offered t ≡ true) × (t ≡ security_ard)
Allowed vnc config offered t = (contains offered t ≡ true) × (t ≡ security_vnc_auth)
Allowed auto config offered t =
    (contains offered t ≡ true)
    × ((t ≢ security_none)
        ⊎ ((is_some config.password && contains offered security_vnc_auth) ≡ false))

and_right : (a b : Bool) → (a && b) ≡ true → b ≡ true
and_right true b h = h
and_right false b h = absurd (cc)

-- Every choice is allowed, and the call gives a choice or an error.
pub pick-Allowed :
    (mode : AuthMode) (config : Config) (offered : List ℕ)
    → Returns (Allowed mode config offered) (pick mode config offered)
unfolding pick pick_auto
pick-Allowed ard config offered =
    Returns-if (Allowed ard config offered) _ _ (contains offered security_ard) (λ e. (e, refl))
      (λ _. tt)
pick-Allowed vnc config offered =
    Returns-if (Allowed vnc config offered) _ _ (contains offered security_vnc_auth)
      (λ e. (e, refl)) (λ _. tt)
pick-Allowed auto config offered =
    let can_ard = is_some config.username && is_some config.password in
    let with_vnc = is_some config.password && contains offered security_vnc_auth in
    Returns-if (Allowed auto config offered) _ _ (can_ard && contains offered security_ard)
      (λ e. (and_right can_ard _ e, inl (omega arith)))
      (λ _.
        Returns-if (Allowed auto config offered) _ _ with_vnc
          (λ e. (and_right (is_some config.password) _ e, inl (omega arith)))
          (λ weak.
            Returns-if (Allowed auto config offered) _ _ (contains offered security_none)
              (λ e. (e, inr weak))
              (λ _.
                Returns-if (Allowed auto config offered) _ _ (contains offered security_vnc_auth)
                  (λ e. (e, inr weak)) (λ _. tt))))
