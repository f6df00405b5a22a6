-- ===== src/Dispatch/Route/Numbering.antt =====
-- The index that `newRoute` of dispatch/route.go gives each route.
use codestra_alertmanager.Prelude.{
  ℕ, zero, suc, ◌+◌, ◌≡◌, refl, sym, ap, ◌∙◌, some, List, [], ◌∷◌, ◌++◌, length, length-append,
  arith, Option-cases, inl, inr,
}
use native.Mathlib.Nat.{zero-add}
use codestra_alertmanager.Labels.{Compile}
use codestra_alertmanager.Dispatch.Route.{
  RouteOpts, RouteNode, Route, Routes, route, no_routes, one_more, walk, walk_children,
}
use codestra_alertmanager.Dispatch.Route.Config.{
  ConfigRoute, ConfigRoutes, config, no_configs, config_and, new_route, new_routes, route_opts,
  route_matchers,
}

-- The indices of a tree, children before their parent.
abbrev mutual
  pub indices : Route → List ℕ
  indices (route n rs) = indices_children rs ++ n.idx ∷ []

  pub indices_children : Routes → List ℕ
  indices_children no_routes = []
  indices_children (one_more r rs) = indices r ++ indices_children rs

-- The numbers from `k` on.
abbrev pub numbers_from : ℕ → ℕ → List ℕ
numbers_from k zero = []
numbers_from k (suc n) = k ∷ numbers_from (k + 1) n

numbers_from-append :
    (k a b : ℕ) → numbers_from k a ++ numbers_from (k + a) b ≡ numbers_from k (a + b)
numbers_from-append k zero b = rw (zero-add b) (ap (λ (i : ℕ). numbers_from i b) (omega arith))
numbers_from-append k (suc a) b =
    let next : numbers_from (k + suc a) b ≡ numbers_from (k + 1 + a) b =
      ap (λ (i : ℕ). numbers_from i b) (omega arith) in
    let more : suc a + b ≡ suc (a + b) = omega arith in
    rw (next, more) (ap (λ xs. k ∷ xs) (numbers_from-append (k + 1) a b))

mutual
  unfolding walk

  length-walk : (r : Route) → length (walk r) ≡ length (indices r)
  length-walk (route n rs) =
      omega (arith, length-walk_children rs, length-append (indices_children rs) (n.idx ∷ []))

  length-walk_children : (rs : Routes) → length (walk_children rs) ≡ length (indices_children rs)
  length-walk_children no_routes = refl
  length-walk_children (one_more r rs) = omega (
    arith,
    length-walk r,
    length-walk_children rs,
    length-append (walk r) (walk_children rs),
    length-append (indices r) (indices_children rs),
  )

append-eq : {xs xs' ys ys' : List ℕ} → xs ≡ xs' → ys ≡ ys' → xs ++ ys ≡ xs' ++ ys'
append-eq p q = rw (p, q)

-- The tree's indices are the numbers from the counter on, and the counter has moved past them.
abbrev Numbered : ℕ → List ℕ → ℕ → Type 0
Numbered k xs m = (xs ≡ numbers_from k (length xs)) × (m ≡ k + length xs)

Numbered-append :
    (k m n : ℕ) (xs ys : List ℕ) → Numbered k xs m → Numbered m ys n → Numbered k (xs ++ ys) n
Numbered-append k m n xs ys (a, b) (c, d) = (
  append-eq a c
      ∙ ap (λ (i : ℕ). numbers_from k (length xs) ++ numbers_from i (length ys)) b
      ∙ numbers_from-append k (length xs) (length ys)
      ∙ ap (numbers_from k) (sym (length-append xs ys)),
  omega (arith, length-append xs ys),
)

mutual
  unfolding new_route

  route-Numbered :
      (compile : Compile) (c : ConfigRoute) (parent : RouteOpts) (k : ℕ) {r : Route} {m : ℕ}
      → new_route compile c parent k ≡ some (r, m)
      → Numbered k (indices r) m
  route-Numbered compile (config c cs) parent k {r} {m} h =
      elim (Option-cases (route_matchers compile c)) [
        | inl p ↦ absurd (ground (arith, p, h))
        | inr (ms, p) ↦ elim (Option-cases (new_routes compile cs (route_opts c parent) k)) [
          | inl q ↦ absurd (ground (arith, p, q, h))
          | inr ((rs, n), q) ↦
              let opts = route_opts c parent in
              let node : RouteNode = record {
                opts = opts;
                matchers = ms;
                continues = c.continues;
                idx = n;
              } in
              let same : r ≡ route node rs = ground (arith, p, q, h) in
              let next : m ≡ n + 1 = ground (arith, p, q, h) in
              rw (same, next)
                (Numbered-append k n (n + 1) (indices_children rs) (n ∷ [])
                  (routes-Numbered compile cs opts k q) (refl, refl))
        ]
      ]

  routes-Numbered :
      (compile : Compile) (cs : ConfigRoutes) (parent : RouteOpts) (k : ℕ) {rs : Routes} {m : ℕ}
      → new_routes compile cs parent k ≡ some (rs, m)
      → Numbered k (indices_children rs) m
  routes-Numbered compile no_configs parent k h = ground (arith, h)
  routes-Numbered compile (config_and c cs) parent k {rs} {m} h =
      elim (Option-cases (new_route compile c parent k)) [
        | inl p ↦ absurd (ground (arith, p, h))
        | inr ((r, n), p) ↦ elim (Option-cases (new_routes compile cs parent n)) [
          | inl q ↦ absurd (ground (arith, p, q, h))
          | inr ((rest, n'), q) ↦
              let same : rs ≡ one_more r rest = ground (arith, p, q, h) in
              let next : m ≡ n' = ground (arith, p, q, h) in
              rw (same, next)
                (Numbered-append k n n' (indices r) (indices_children rest)
                  (route-Numbered compile c parent k p) (routes-Numbered compile cs parent n q))
        ]
      ]

-- A tree that `newRoute` builds has as many indices as `Walk` visits routes: they are the numbers
-- from the counter on, children before their parents, and the counter has moved past them.
pub new_route-walk :
    (compile : Compile) (c : ConfigRoute) (parent : RouteOpts) (k : ℕ) (r : Route) (m : ℕ)
    → new_route compile c parent k ≡ some (r, m)
    → (indices r ≡ numbers_from k (length (walk r))) × (m ≡ k + length (walk r))
new_route-walk compile c parent k r m h = rw (length-walk r) (route-Numbered compile c parent k h)
