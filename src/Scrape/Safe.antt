-- ===== src/Scrape/Safe.antt =====
-- `_is_safe_scrape_host`: the hosts that a scrape may contact. The DNS and `ipaddress` are parameters.
use linux_iso_seeder.Base.{
  ◌≡◌, ◌≢◌, refl, Bool, true, false, ◌||◌, not, Option, none, some, List, [], ◌∷◌, if◌then◌else◌,
  inl, inr, Bool-cases, Result, ok, raised, Error, os_error, ◌>>=◌, >>=-eq-ok, ok_injective, ap,
  ◌∙◌, All, arith,
}
use linux_iso_seeder.Base.Text.{Text}
use linux_iso_seeder.Base.Env.{is_empty}

-- The properties of an address of `ipaddress` that are asked for.
pub record Ip : Type 0 where
  pub is_private : Bool
  pub is_loopback : Bool
  pub is_link_local : Bool
  pub is_multicast : Bool
  pub is_reserved : Bool
  pub is_unspecified : Bool

abbrev pub is_disallowed : Ip → Bool
is_disallowed ip =
    ip.is_private
    || (ip.is_loopback
        || (ip.is_link_local || (ip.is_multicast || (ip.is_reserved || ip.is_unspecified))))

-- `bool(addresses)`
abbrev pub is_some_address : List Text → Bool
is_some_address [] = false
is_some_address (a ∷ addresses) = true

abbrev unless_os_error : Error → Result (List Text)
unless_os_error os_error = ok []
unless_os_error e = raised e

-- Only an `OSError` of the lookup is handled.
abbrev pub resolved_or : Result (List Text) → Result (List Text)
resolved_or (ok addresses) = ok addresses
resolved_or (raised e) = unless_os_error e

-- `any(...)` stops at the first that holds.
abbrev or_later : Bool → Result Bool → Result Bool
or_later true rest = ok true
or_later false rest = rest

module _ (ip_address : Text → Result Ip) where
  unfoldable pub is_disallowed_ip : Text → Result Bool
  is_disallowed_ip ip_str = ip_address ip_str >>= λ ip. ok (is_disallowed ip)

  unfoldable pub any_disallowed : List Text → Result Bool
  unfolding is_disallowed_ip
  any_disallowed [] = ok false
  any_disallowed (a ∷ addresses) =
      is_disallowed_ip a >>= λ bad. or_later bad (any_disallowed addresses)

  unfoldable pub are_allowed : List Text → Result Bool
  unfolding any_disallowed
  are_allowed [] = ok false
  are_allowed (a ∷ addresses) = any_disallowed (a ∷ addresses) >>= λ bad. ok (not bad)

  module _ (resolve : Text → Result (List Text)) where
    unfoldable pub is_safe_scrape_host : Option Text → Result Bool
    unfolding are_allowed
    is_safe_scrape_host none = ok false
    is_safe_scrape_host (some hostname) =
        if is_empty hostname then ok false else (resolved_or (resolve hostname) >>= are_allowed)

    -- An address of a public tracker.
    pub record IsPublicAddress (address : Text) : Type 0 where
      pub ip : Ip
      pub parsed : ip_address address ≡ ok ip
      pub public : is_disallowed ip ≡ false

    -- A host that the lookup knows, and all of whose addresses are public.
    pub record IsPublicHost (hostname : Text) : Type 0 where
      pub addresses : List Text
      pub found : resolve hostname ≡ ok addresses
      pub present : addresses ≢ []
      pub public : All IsPublicAddress addresses

    first_allowed :
        (a : Text) (r : Result Ip) (rest : Result Bool)
        → ip_address a ≡ r
        → (r >>= (λ ip. ok (is_disallowed ip)) >>= λ bad. or_later bad rest) ≡ ok false
        → IsPublicAddress a × (rest ≡ ok false)
    first_allowed a (raised e) rest at h = cc
    first_allowed a (ok ip) rest at h = elim (Bool-cases (is_disallowed ip)) [
      | inl bad ↦ absurd (cc (rw bad at h))
      | inr good ↦ (record { ip = ip; parsed = at; public = good }, rw good at h)
    ]

    none_disallowed :
        (addresses : List Text)
        → any_disallowed addresses ≡ ok false
        → All IsPublicAddress addresses
    unfolding any_disallowed is_disallowed_ip
    none_disallowed [] h = tt
    none_disallowed (a ∷ addresses) h =
        let (first, rest) = first_allowed a (ip_address a) (any_disallowed addresses) refl h in
        (first, none_disallowed addresses rest)

    not_allowed : (e : Error) → (unless_os_error e >>= are_allowed) ≢ ok true
    unfolding are_allowed
    not_allowed e h = ground arith

    resolved-IsPublicHost :
        (hostname : Text) (r : Result (List Text))
        → resolve hostname ≡ r
        → (resolved_or r >>= are_allowed) ≡ ok true
        → IsPublicHost hostname
    unfolding are_allowed
    resolved-IsPublicHost hostname (ok []) at h = cc
    resolved-IsPublicHost hostname (ok (a ∷ addresses)) at h =
        let (bad, found, allowed) =
          >>=-eq-ok (any_disallowed (a ∷ addresses)) (λ bad. ok (not bad)) h in
        let is_good : bad ≡ false = ground (arith, ok_injective allowed) in
        record {
          addresses = a ∷ addresses;
          found = at;
          present = λ e. cc;
          public = none_disallowed (a ∷ addresses) (found ∙ ap ok is_good);
        }
    resolved-IsPublicHost hostname (raised e) at h = absurd (not_allowed e h)

    pub is_safe_scrape_host-IsPublicHost :
        (hostname : Text) → is_safe_scrape_host (some hostname) ≡ ok true → IsPublicHost hostname
    unfolding is_safe_scrape_host
    is_safe_scrape_host-IsPublicHost hostname h = elim (Bool-cases (is_empty hostname)) [
      | inl e ↦ absurd (cc (rw e at h))
      | inr e ↦ resolved-IsPublicHost hostname (resolve hostname) refl (rw e at h)
    ]
