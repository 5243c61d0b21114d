-- ===== src/Server/Access.antt =====
-- Who gets past the checks of a route.
use agentic_cloud_pipeline_g.Prelude.{
  ℕ, ◌≤◌, String, ◌≡◌, ◌∙◌, refl, sym, ap, true, false, ◌⊎◌, Option, none, some, List, [], ◌∷◌,
  arith, str_eq, eq_iff, Bool-cases, Option-cases, inl, inr,
}
use agentic_cloud_pipeline_g.Prelude.Dict.{Dict, lookup}
use agentic_cloud_pipeline_g.Settings.{Credentials, is_empty, api_key_map, tenant_map, role_rank}
use agentic_cloud_pipeline_g.Server.{
  Tenant, Reply, ok, refused, get_tenant, BasicCredentials, Request, actor_with_key,
  actor_with_password, is_tenant_active, resolve, admit, authenticate, key_or_host, rate_limit_key,
  actor_role, is_ranked, check_role, require_role,
}

-- An entry of a table.
abbrev pub IsEntry : String → String → Dict String → Type 0
IsEntry a k [] = ⊥
IsEntry a k ((b, j) ∷ rest) = ((a ≡ b) × (k ≡ j)) ⊎ IsEntry a k rest

-- What a request shows for an actor: its key, or, without one, its name with its key.
abbrev pub Shows : Credentials → Request → String → Type 0
Shows c r actor =
    ((is_empty r.x_api_key ≡ false) × IsEntry actor r.x_api_key (api_key_map c))
    ⊎ ((is_empty r.x_api_key ≡ true)
        × (b : BasicCredentials) × (r.basic ≡ some b)
        × (b.username ≡ actor)
        × (lookup actor (api_key_map c) ≡ some b.password))

-- What a route that requires a role knows of its caller.
pub record IsAllowed (c : Credentials) (tenants : List Tenant) (least : ℕ) (r : Request)
    (actor : String) : Type 0 where
  pub shown : Shows c r actor
  pub rank : (n : ℕ) × (role_rank (actor_role c actor) ≡ some n) × (least ≤ n)
  pub tenant :
      (lookup actor (tenant_map c) ≡ none)
      ⊎ ((id : String) × (t : Tenant) × (lookup actor (tenant_map c) ≡ some id)
          × (get_tenant id tenants ≡ some t)
          × (t.status ≡ "active"))

actor_with_key-IsEntry :
    (key actor : String) (d : Dict String) → actor_with_key key d ≡ some actor → IsEntry actor key d
unfolding actor_with_key
actor_with_key-IsEntry key actor [] h = absurd (ground (arith, h))
actor_with_key-IsEntry key actor ((b, j) ∷ rest) h = elim (Bool-cases (str_eq key j)) [
  | inl t ↦ inl (ground (arith, h, t), (eq_iff key j).0 t)
  | inr f ↦ inr (actor_with_key-IsEntry key actor rest (rw f at h))
]

password_of :
    (b : BasicCredentials) (actor : String) (d : Dict String)
    → actor_with_password b d ≡ some actor
    → (b.username ≡ actor) × (lookup actor d ≡ some b.password)
unfolding actor_with_password
password_of b actor d h = elim (Option-cases (lookup b.username d)) [
  | inl n ↦ absurd (ground (arith, rw (actor_with_password, n) at h))
  | inr (k, e) ↦ elim (Bool-cases (str_eq b.password k)) [
    | inr f ↦ absurd (ground (arith, rw (actor_with_password, e, f) at h))
    | inl t ↦
        let a : b.username ≡ actor = ground (arith, rw (actor_with_password, e, t) at h) in
        (a, ap (λ x. lookup x d) (sym a) ∙ e ∙ ap some (sym ((eq_iff b.password k).0 t)))
  ]
]

module _ (c : Credentials) (tenants : List Tenant) where
  resolve-Shows :
      (r : Request) (o : Option BasicCredentials) (actor : String)
      → r.basic ≡ o
      → resolve c r.x_api_key o ≡ some actor
      → Shows c r actor
  unfolding resolve
  resolve-Shows r o actor q h = elim (Bool-cases (is_empty r.x_api_key)) [
    | inr f ↦
        inl (f, actor_with_key-IsEntry r.x_api_key actor (api_key_map c) (rw (resolve, f) at h))
    | inl t ↦ by_password t o q (rw (resolve, t) at h)
  ]
    where
      by_password :
          is_empty r.x_api_key ≡ true
          → (p : Option BasicCredentials) → r.basic ≡ p
          → (elim p [ none ↦ none | some b ↦ actor_with_password b (api_key_map c) ]) ≡ some actor
          → Shows c r actor
      by_password z none e k = absurd (ground (arith, k))
      by_password z (some b) e k = inr (
        z,
        b,
        e,
        (password_of b actor (api_key_map c) k).0,
        (password_of b actor (api_key_map c) k).1,
      )

  admit-ok :
      (o : Option String) (actor : String)
      → admit c tenants o ≡ ok actor
      → (o ≡ some actor) × (is_tenant_active c tenants actor ≡ true)
  unfolding admit
  admit-ok none actor h = absurd (ground (arith, h))
  admit-ok (some a) actor h = elim (Bool-cases (is_tenant_active c tenants a)) [
    | inr f ↦ absurd (ground (arith, rw (admit, f) at h))
    | inl t ↦
        let e : a ≡ actor = ground (arith, rw (admit, t) at h) in
        (ap some e, ap (is_tenant_active c tenants) (sym e) ∙ t)
  ]

  is_tenant_active-true :
      (actor : String)
      → is_tenant_active c tenants actor ≡ true
      → (lookup actor (tenant_map c) ≡ none)
        ⊎ ((id : String) × (t : Tenant) × (lookup actor (tenant_map c) ≡ some id)
            × (get_tenant id tenants ≡ some t)
            × (t.status ≡ "active"))
  unfolding is_tenant_active
  is_tenant_active-true actor h = elim (Option-cases (lookup actor (tenant_map c))) [
    | inl n ↦ inl n
    | inr (id, e) ↦ elim (Option-cases (get_tenant id tenants)) [
      | inl n ↦ absurd (ground (arith, rw (is_tenant_active, e, n) at h))
      | inr (t, g) ↦
          inr (id, t, e, g, (eq_iff t.status "active").0 (rw (is_tenant_active, e, g) at h))
    ]
  ]

  is_ranked-true :
      (least : ℕ) (o : Option ℕ) → is_ranked c least o ≡ true → (n : ℕ) × (o ≡ some n) × (least ≤ n)
  is_ranked-true least none h = absurd (ground (arith, h))
  is_ranked-true least (some n) h = (n, refl, ground (arith, h))

  check_role-ok :
      (least : ℕ) (o : Reply String) (actor : String)
      → check_role c least o ≡ ok actor
      → (o ≡ ok actor) × (is_ranked c least (role_rank (actor_role c actor)) ≡ true)
  unfolding check_role
  check_role-ok least (refused n) actor h = absurd (ground (arith, h))
  check_role-ok least (ok a) actor h =
      elim (Bool-cases (is_ranked c least (role_rank (actor_role c a)))) [
        | inr f ↦ absurd (ground (arith, rw (check_role, f) at h))
        | inl t ↦
            let e : a ≡ actor = ground (arith, rw (check_role, t) at h) in
            (ap ok e, ap (λ x. is_ranked c least (role_rank (actor_role c x))) (sym e) ∙ t)
      ]

  -- A caller that a route with a least role lets in as an actor has shown that actor's key, has a
  -- role of that rank or higher, and is bound to no tenant or to one that exists and is active.
  pub require_role-IsAllowed :
      (least : ℕ) (r : Request) (actor : String)
      → require_role c least tenants r ≡ ok actor
      → IsAllowed c tenants least r actor
  unfolding require_role authenticate
  require_role-IsAllowed least r actor h =
      let (a, k) = check_role-ok least (authenticate c tenants r) actor h in
      let (s, t) = admit-ok (resolve c r.x_api_key r.basic) actor a in
      record {
        shown = resolve-Shows r r.basic actor refl s;
        rank = is_ranked-true least (role_rank (actor_role c actor)) k;
        tenant = is_tenant_active-true actor t;
      }

  key_or_host-some :
      (o p : Option String) (actor : String) (r : Request)
      → o ≡ some actor
      → p ≡ o
      → key_or_host c p r ≡ actor
  unfolding key_or_host
  key_or_host-some o p actor r e q = rw (q, e) refl

  -- When the middleware decodes the header as the framework does, the requests that are
  -- authenticated as an actor are counted under that actor's name.
  pub rate_limit_key-authenticate :
      (r : Request) (actor : String)
      → r.decoded ≡ r.basic
      → authenticate c tenants r ≡ ok actor
      → rate_limit_key c r ≡ actor
  unfolding rate_limit_key authenticate
  rate_limit_key-authenticate r actor d h =
      key_or_host-some (resolve c r.x_api_key r.basic) (resolve c r.x_api_key r.decoded) actor r
        (admit-ok (resolve c r.x_api_key r.basic) actor h).0 (ap (resolve c r.x_api_key) d)
