-- ===== src/Config/Read/Ready.antt =====
-- What ReadConfig returns when it succeeds.
use seth.Prelude.{
  ℕ, Option, none, some, List, [], ◌∷◌, ◌++◌, if◌then◌else◌, ◌≡◌, ◌≢◌, ◌⊎◌, refl, ap, sym, ◌∙◌,
  arith, All, get_elem?, Bool-cases, Option-cases, inl, inr,
}
use seth.Prelude.Text.{Text, ◌==ₜ◌}
use seth.Prelude.Errors.{Result, ok, ◌>>=◌, bind-eq-ok, Result-cases}
use seth.Config.{Network, Config, set, deref, the_network, write_at}
use seth.Config.Heap.{get_elem?-set}
use seth.ClientBuilder.{default_network_name}
use seth.Config.Read.{
  System, find_network, select_named, as_default, select_default, select_network, with_root_key,
  add_root_key, load, read_config, config_path_var, network_var, url_var, root_key_var,
}

-- A configuration that ReadConfig can return: its network has the root key as its last one and a
-- dial timeout.
abbrev pub IsReady : Text → Config → Type 0
IsReady key c =
    (key ≢ [])
    × (n : Network) × (the_network c ≡ ok n)
    × (n.dial_timeout ≢ none)
    × (keys : List Text) × (n.private_keys ≡ keys ++ key ∷ [])

-- The network that a pointer points to has another name.
abbrev IsOther : List Network → Text → ℕ → Type 0
IsOther heap name q = (m : Network) × (get_elem? heap q ≡ some m) × (m.name ≢ name)

-- No network of the list has the name.
abbrev pub IsUnnamed : List Network → Text → List ℕ → Type 0
IsUnnamed heap name ps = All (IsOther heap name) ps

-- The first network of the list that has the name.
abbrev pub IsFirst : List Network → Text → List ℕ → ℕ → Type 0
IsFirst heap name ps p =
    (before : List ℕ) × (after : List ℕ) × (ps ≡ before ++ p ∷ after)
    × IsUnnamed heap name before
    × (n : Network) × (get_elem? heap p ≡ some n)
    × (n.name ≡ name)

find_network_cases :
    (heap : List Network) (name : Text) (q : ℕ) (ps : List ℕ) (found : Option ℕ)
    → find_network heap name (q ∷ ps) ≡ ok found
    → (n : Network) × (get_elem? heap q ≡ some n)
      × (((n.name ≡ name) × (found ≡ some q))
          ⊎ ((n.name ≢ name) × (find_network heap name ps ≡ ok found)))
unfolding find_network deref
find_network_cases heap name q ps found h = elim (Option-cases (get_elem? heap q)) [
  | inl e ↦ absurd (ground (arith, e))
  | inr (n, e) ↦ elim (Bool-cases (n.name ==ₜ name)) [
    | inl same ↦ (n, e, inl (ground (arith, same), ground (arith, e, same, h)))
    | inr other ↦ (n, e, inr (ground (arith, other), ground (arith, e, other, h)))
  ]
]

find_network-IsUnnamed :
    (heap : List Network) (name : Text) (ps : List ℕ)
    → find_network heap name ps ≡ ok none
    → IsUnnamed heap name ps
find_network-IsUnnamed heap name [] h = tt
find_network-IsUnnamed heap name (q ∷ ps) h =
    let (n, e, c) = find_network_cases heap name q ps none h in
    elim c [
      | inl (same, f) ↦ absurd cc
      | inr (other, f) ↦ ((n, e, other), find_network-IsUnnamed heap name ps f)
    ]

find_network-IsFirst :
    (heap : List Network) (name : Text) (ps : List ℕ) (p : ℕ)
    → find_network heap name ps ≡ ok (some p)
    → IsFirst heap name ps p
unfolding find_network
find_network-IsFirst heap name [] p h = absurd cc
find_network-IsFirst heap name (q ∷ ps) p h =
    let (n, e, c) = find_network_cases heap name q ps (some p) h in
    elim c [
      | inl (same, f) ↦
          let pq : q ≡ p = ground (arith, f) in
          ([], ps, ap (λ x. x ∷ ps) pq, tt, n, ap (get_elem? heap) (sym pq) ∙ e, same)
      | inr (other, f) ↦
          let (before, after, s, u, m, g, same) = find_network-IsFirst heap name ps p f in
          (q ∷ before, after, ap (λ x. q ∷ x) s, ((n, e, other), u), m, g, same)
    ]

-- SETH_NETWORK is empty or the name of no network of the file.
abbrev pub IsUnselected : Config → Text → Type 0
IsUnselected c snet = (snet ≡ []) ⊎ IsUnnamed c.heap snet c.networks

-- Where the network of the configuration comes from.
abbrev pub IsSelected : Config → Text → Text → Config → Type 0
IsSelected c snet url c' =
    ((p : ℕ) × (c'.network ≡ some p) × (snet ≢ []) × IsFirst c.heap snet c.networks p)
    ⊎ (((p : ℕ) × (c'.network ≡ some p) × (c.network ≡ some p) × IsUnselected c snet)
        ⊎ ((p : ℕ) × (c'.network ≡ some p)
            × IsUnselected c snet
            × (c.network ≡ none)
            × (url ≢ [])
            × IsFirst c.heap default_network_name c.networks p
            × (n : Network) × (get_elem? c'.heap p ≡ some n)
            × (n.urls ≡ url ∷ [])
            × (n.name ≡ (if snet ==ₜ [] then default_network_name else snet))))

-- What write_at does when it succeeds.
write_at-ok :
    (c c' : Config) (p : ℕ) (change : Network → Network)
    → write_at c p change ≡ ok c'
    → (n : Network) × (get_elem? c.heap p ≡ some n)
      × (c' ≡ record c { heap = set c.heap p (change n) })
unfolding write_at deref
write_at-ok c c' p change h = elim (Option-cases (get_elem? c.heap p)) [
  | inl e ↦ absurd (ground arith)
  | inr (n, e) ↦ (n, e, ground (arith, e))
]

set-get :
    (ns : List Network) (p : ℕ) (m n : Network)
    → get_elem? ns p ≡ some n
    → get_elem? (set ns p m) p ≡ some m
set-get ns p m n h = ground (arith, get_elem?-set ns p p m n h)

add_root_key-ok :
    (c c' : Config) (key : Text)
    → add_root_key c key ≡ ok c'
    → (key ≢ [])
      × (p : ℕ) × (c.network ≡ some p)
      × (n : Network) × (get_elem? c.heap p ≡ some n)
      × (c' ≡ record c { heap = set c.heap p (with_root_key key n) })
unfolding add_root_key
add_root_key-ok c c' key h = elim (Option-cases c.network) [
  | inl e ↦ absurd (ground (arith, e))
  | inr (p, e) ↦
      let w = write_at-ok c c' p (with_root_key key) (ground (arith, e)) in
      (ground arith, p, e, w.0, w.1, w.2)
]

the_network-set :
    (c : Config) (p : ℕ) (m n : Network)
    → c.network ≡ some p
    → get_elem? c.heap p ≡ some n
    → the_network (record c { heap = set c.heap p m }) ≡ ok m
unfolding the_network deref
the_network-set c p m n e g =
    rw e (ap (λ o. elim o [ none ↦ Result.panic | some x ↦ ok x ]) (set-get c.heap p m n g))

with_root_key_timeout : (key : Text) (n : Network) → (with_root_key key n).dial_timeout ≢ none
unfolding with_root_key
with_root_key_timeout key n = λ h. cc

add_root_key-IsReady : (c c' : Config) (key : Text) → add_root_key c key ≡ ok c' → IsReady key c'
unfolding with_root_key
add_root_key-IsReady c c' key h =
    let (k, p, e, n, g, w) = add_root_key-ok c c' key h in
    (
      k,
      with_root_key key n,
      rw w (the_network-set c p (with_root_key key n) n e g),
      with_root_key_timeout key n,
      n.private_keys,
      refl,
    )

select_named-ok :
    (c c' : Config) (snet : Text)
    → select_named c snet ≡ ok c'
    → ((c' ≡ c) × IsUnselected c snet)
      ⊎ ((p : ℕ) × (c' ≡ record c { network = some p })
          × (snet ≢ [])
          × IsFirst c.heap snet c.networks p)
unfolding select_named
select_named-ok c c' snet h = elim (Bool-cases (snet ==ₜ [])) [
  | inl e ↦ inl (ground (arith, e), inl (ground (arith, e)))
  | inr e ↦ elim (Result-cases (find_network c.heap snet c.networks)) [
    | inr (inl (x, f)) ↦ absurd (ground (arith, f))
    | inr (inr f) ↦ absurd (ground (arith, f))
    | inl (o, f) ↦ elim (Option-cases o) [
      | inl q ↦
          inl (
            ground (arith, f, q),
            inr (find_network-IsUnnamed c.heap snet c.networks (f ∙ ap ok q)),
          )
      | inr (p, q) ↦ inr (
        p,
        ground (arith, f, q),
        ground arith,
        find_network-IsFirst c.heap snet c.networks p (f ∙ ap ok q),
      )
    ]
  ]
]

select_default-ok :
    (c c' : Config) (snet url : Text)
    → select_default c snet url ≡ ok c'
    → (url ≢ [])
      × (p : ℕ) × (find_network c.heap default_network_name c.networks ≡ ok (some p))
      × (n : Network) × (get_elem? c.heap p ≡ some n)
      × (c' ≡ record c { network = some p; heap = set c.heap p (as_default snet url n) })
unfolding select_default
select_default-ok c c' snet url h =
    elim (Result-cases (find_network c.heap default_network_name c.networks)) [
      | inr (inl (x, f)) ↦ absurd (ground (arith, f))
      | inr (inr f) ↦ absurd (ground (arith, f))
      | inl (o, f) ↦ elim (Option-cases o) [
        | inl q ↦ absurd (ground (arith, f, q))
        | inr (p, q) ↦
            let (n, g, w) =
              write_at-ok (record c { network = some p }) c' p (as_default snet url)
                (ground (arith, f, q)) in
            (ground arith, p, ground (arith, f, q), n, g, w)
      ]
    ]

add_root_key_network :
    (c c' : Config) (key : Text) → add_root_key c key ≡ ok c' → c'.network ≡ c.network
add_root_key_network c c' key h =
    let (k, p, e, n, g, w) = add_root_key-ok c c' key h in ap (λ d. d.network) w

-- The network that is the default one, after the root key is added.
default-Selected :
    (c c1 c' : Config) (snet url key : Text)
    → c.network ≡ none
    → IsUnselected c snet
    → select_default c snet url ≡ ok c1
    → add_root_key c1 key ≡ ok c'
    → IsSelected c snet url c'
unfolding with_root_key as_default
default-Selected c c1 c' snet url key none_yet unnamed h r =
    let (u, p, f, n, g, w) = select_default-ok c c1 snet url h in
    let (k, q, e, m, g', w') = add_root_key-ok c1 c' key r in
    let pq : q ≡ p = ground (arith, e, w) in
    let at_p : get_elem? c1.heap p ≡ some (as_default snet url n) =
      ap (λ d. get_elem? d.heap p) w ∙ set-get c.heap p (as_default snet url n) n g in
    let heap_p : get_elem? c'.heap p ≡ some (with_root_key key m) =
      ap (λ d. get_elem? d.heap p) w'
      ∙ ap (λ x. get_elem? (set c1.heap x (with_root_key key m)) p) pq
      ∙ set-get c1.heap p (with_root_key key m) (as_default snet url n) at_p in
    let same : m ≡ as_default snet url n = ground (arith, at_p, g', pq) in
    inr (
      inr (
        p,
        add_root_key_network c1 c' key r ∙ e ∙ ap some pq,
        unnamed,
        none_yet,
        u,
        find_network-IsFirst c.heap default_network_name c.networks p f,
        with_root_key key m,
        heap_p,
        ap (λ x. x.urls) same,
        ap (λ x. x.name) same,
      ))

named-Selected :
    (c c0 c1 c' : Config) (snet url key : Text)
    → select_named c snet ≡ ok c0
    → elim c0.network [ none ↦ select_default c0 snet url | some p ↦ ok c0 ] ≡ ok c1
    → add_root_key c1 key ≡ ok c'
    → IsSelected c snet url c'
named-Selected c c0 c1 c' snet url key h s r = elim (select_named-ok c c0 snet h) [
  | inr (p, e, some_name, f) ↦
      inl (p, add_root_key_network c1 c' key r ∙ ground (arith, e), some_name, f)
  | inl (e, unnamed) ↦ elim (Option-cases c.network) [
    | inl q ↦ default-Selected c c1 c' snet url key q unnamed (ground (arith, e, q)) r
    | inr (p, q) ↦
        inr (inl (p, add_root_key_network c1 c' key r ∙ ground (arith, e, q), q, unnamed))
  ]
]

-- What ReadConfig returns is ready: the root key of the environment, which is not empty, is the last
-- key of its network, and that network has a dial timeout. Its network is the first of the file whose
-- name is the SETH_NETWORK of the environment. Where SETH_NETWORK is empty or names no network of the
-- file, it is the one that the file selects itself, and where there is none, the first of the file that
-- is called Default, with the SETH_URL of the environment, which is not empty, as its one URL and
-- SETH_NETWORK as its name where that is not empty.
pub read_config-IsReady :
    (sys : System) (c' : Config)
    → read_config sys ≡ ok c'
    → IsReady (sys.getenv root_key_var) c'
      × (c : Config) × (load sys (sys.getenv config_path_var) ≡ ok c)
      × IsSelected c (sys.getenv network_var) (sys.getenv url_var) c'
unfolding read_config select_network
read_config-IsReady sys c' h = elim (Bool-cases (sys.getenv config_path_var ==ₜ [])) [
  | inl e ↦ absurd (ground (arith, e))
  | inr e ↦
      let (c, l, h1) =
        bind-eq-ok (load sys (sys.getenv config_path_var))
          (λ c. do
            c1 ← select_network c (sys.getenv network_var) (sys.getenv url_var)
            add_root_key c1 (sys.getenv root_key_var))
          {out = c'} (ground (arith, e)) in
      let (c1, s, r) =
        bind-eq-ok (select_network c (sys.getenv network_var) (sys.getenv url_var))
          (λ c1. add_root_key c1 (sys.getenv root_key_var)) {out = c'} h1 in
      let (c0, n, d) =
        bind-eq-ok (select_named c (sys.getenv network_var))
          (λ x. elim x.network [
            | none ↦ select_default x (sys.getenv network_var) (sys.getenv url_var)
            | some p ↦ ok x
          ])
          {out = c1} s in
      (
        add_root_key-IsReady c1 c' (sys.getenv root_key_var) r,
        c,
        l,
        named-Selected c c0 c1 c' (sys.getenv network_var) (sys.getenv url_var)
            (sys.getenv root_key_var) n d r,
      )
]
