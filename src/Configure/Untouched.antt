-- ===== src/Configure/Untouched.antt =====
-- What `configure_transmission.py` changes, and what it leaves alone.
use linux_iso_seeder.Base.{
  ◌≡◌, ◌≢◌, ◌⊎◌, All, refl, Bool, true, inl, inr, List, [], ◌∷◌, ◌++◌, arith, Bool-cases, any,
}
use linux_iso_seeder.Base.Text.{Text, codes, same}
use linux_iso_seeder.Base.Strings.{split, strip}
use linux_iso_seeder.Base.Dict
use linux_iso_seeder.Base.Dict.{Dict}
use linux_iso_seeder.Base.Env.{Environment, env_text}
use linux_iso_seeder.Configure.{
  File, missing, localhost_whitelist, stripped_entries, missing_from, whitelist_entries,
}

-- A variable that is not set, or has nothing but spaces.
abbrev pub IsBlank : Environment → Text → Type 0
IsBlank env name = strip (env_text env name) ≡ []

abbrev pub IsNoneOf : Text → List Text → Type 0
IsNoneOf key keys = All (λ k. k ≢ key) keys

-- Each setting that the program may write, beside when it does not.
abbrev pub IsFree : Environment → File → Text → Type 0
IsFree env file key =
    (IsNoneOf key (codes "rpc-whitelist-enabled" ∷ codes "rpc-whitelist" ∷ [])
      ⊎ IsBlank env (codes "TRANSMISSION_RPC_WHITELIST"))
    × (IsNoneOf key
          (codes "rpc-authentication-required" ∷ codes "rpc-username" ∷ codes "rpc-password" ∷ [])
        ⊎ IsBlank env (codes "TRANSMISSION_RPC_USERNAME")
        ⊎ IsBlank env (codes "TRANSMISSION_RPC_PASSWORD"))
    × (IsNoneOf key (codes "peer-limit-global" ∷ [])
        ⊎ IsBlank env (codes "TRANSMISSION_PEER_LIMIT_GLOBAL"))
    × (IsNoneOf key (codes "peer-limit-per-torrent" ∷ [])
        ⊎ IsBlank env (codes "TRANSMISSION_PEER_LIMIT_PER_TORRENT"))
    × (IsNoneOf key (codes "port-forwarding-enabled" ∷ [])
        ⊎ ((file ≢ missing) × IsBlank env (codes "TRANSMISSION_PORT_FORWARDING")))

any-append_right : (p : Text → Bool) (xs ys : List Text) → any p ys ≡ true → any p (xs ++ ys) ≡ true
any-append_right p [] ys h = h
any-append_right p (x ∷ xs) ys h = ground (arith, any-append_right p xs ys h)

-- Whatever an operator lists, the whitelist still has the daemon's own two addresses.
pub whitelist_entries-localhost :
    (entries : Text)
    → (any (λ e. same e (codes "127.0.0.1")) (whitelist_entries entries) ≡ true)
      × (any (λ e. same e (codes "::1")) (whitelist_entries entries) ≡ true)
unfolding whitelist_entries missing_from same
whitelist_entries-localhost entries = among (stripped_entries (split b',' entries))
  where
    among :
        (extra : List Text)
        → (any (λ e. same e (codes "127.0.0.1")) (missing_from extra localhost_whitelist ++ extra)
            ≡ true)
          × (any (λ e. same e (codes "::1")) (missing_from extra localhost_whitelist ++ extra)
              ≡ true)
    among extra = elim (Bool-cases (any (λ x. same x (codes "127.0.0.1")) extra)) [
      | inl four ↦ elim (Bool-cases (any (λ x. same x (codes "::1")) extra)) [
        | inl six ↦ rw (four, six) (four, six)
        | inr six ↦ rw (four, six) (any-append_right _ (codes "::1" ∷ []) extra four, refl)
      ]
      | inr four ↦ elim (Bool-cases (any (λ x. same x (codes "::1")) extra)) [
        | inl six ↦ rw (four, six) (refl, any-append_right _ (codes "127.0.0.1" ∷ []) extra six)
        | inr six ↦ rw (four, six) (refl, refl)
      ]
    ]
