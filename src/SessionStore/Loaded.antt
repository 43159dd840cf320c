-- ===== src/SessionStore/Loaded.antt =====
-- What `load_sessions` of crates/semantic-engine-session-store/src/lib.rs gives of the tables.
use mathlib.Core.List.{Perm}
use mathlib.Core.List.Perm
use semantic_engine.Common.{
  ℕ, Text, List, [], ◌∷◌, ◌+◌, ◌≤◌, leb, ◌=t◌, retain, take, map, ◌≡◌, refl, subst, arith, All,
  All-map, Pairwise, Bool-cases, inl, inr,
}
use semantic_engine.Common.Results.{ok, >>=-eq-ok, >>-eq-ok, ok-injective}
use semantic_engine.Common.Machine.{Io, statement}
use semantic_engine.SessionStore.Types.{
  StoredSessionHeader, StoredEvent, StoredDelivery, database, Tables,
}
use semantic_engine.SessionStore.Loading.{
  max_sessions, StoredSession, insert_by, order_by, load_events, load_deliveries, load_rest,
  load_sessions,
}

-- The list is in the order of the number.
abbrev pub Ascends {ℓ} : {A : Type ℓ} → (A → ℕ) → List A → Type 0
Ascends number [] = Unit
Ascends number (x ∷ xs) = All (λ y. number x ≤ number y) xs × Ascends number xs

module _ {ℓ} {A : Type ℓ} (number : A → ℕ) where
  insert_by-perm : (a : A) (xs : List A) → Perm (insert_by number a xs) (a ∷ xs)
  unfolding insert_by
  insert_by-perm a [] = Perm.refl (a ∷ [])
  insert_by-perm a (x ∷ xs) = elim (Bool-cases (leb (number a) (number x))) [
    | inl first ↦ rw (first, insert_by) (Perm.refl (a ∷ x ∷ xs))
    | inr later ↦
        rw (later, insert_by) (Perm.trans (Perm.cons x (insert_by-perm a xs)) (Perm.swap a x xs))
  ]

  order_by-perm : (xs : List A) → Perm (order_by number xs) xs
  unfolding order_by
  order_by-perm [] = Perm.refl []
  order_by-perm (x ∷ xs) =
      Perm.trans (insert_by-perm x (order_by number xs)) (Perm.cons x (order_by-perm xs))

  insert_by-All :
      (n : ℕ) (a : A) (xs : List A)
      → n ≤ number a
      → All (λ y. n ≤ number y) xs
      → All (λ y. n ≤ number y) (insert_by number a xs)
  unfolding insert_by
  insert_by-All n a [] below h = (below, tt)
  insert_by-All n a (x ∷ xs) below h = elim (Bool-cases (leb (number a) (number x))) [
    | inl first ↦ rw (first, insert_by) (below, h)
    | inr later ↦ rw (later, insert_by) (h.0, insert_by-All n a xs below h.1)
  ]

  insert_by-Ascends :
      (a : A) (xs : List A) → Ascends number xs → Ascends number (insert_by number a xs)
  unfolding insert_by
  insert_by-Ascends a [] h = (tt, tt)
  insert_by-Ascends a (x ∷ xs) h = elim (Bool-cases (leb (number a) (number x))) [
    | inl first ↦
        let below : number a ≤ number x = ground (arith, first) in
        rw (first, insert_by) ((below, All-map xs (λ y more. omega (arith, below, more)) h.0), h)
    | inr later ↦
        let above : number x ≤ number a = ground (arith, later) in
        rw (later, insert_by) (insert_by-All (number x) a xs above h.0, insert_by-Ascends a xs h.1)
  ]

  order_by-Ascends : (xs : List A) → Ascends number (order_by number xs)
  unfolding order_by
  order_by-Ascends [] = tt
  order_by-Ascends (x ∷ xs) = insert_by-Ascends x (order_by number xs) (order_by-Ascends xs)

abbrev pub owned {ℓ} : {A : Type ℓ} → Text → List (Text × A) → List A
owned id rows = map (λ r. r.1) (retain (λ r. r.0 =t id) rows)

-- The session has the header, and all the rows of it in the order of their numbers.
abbrev pub IsLoaded : Tables → StoredSessionHeader → StoredSession → Type 0
IsLoaded t header stored =
    (stored.header ≡ header)
    × Perm stored.events (owned header.session_id t.events)
    × Ascends (λ (e : StoredEvent). e.sequence) stored.events
    × Perm stored.deliveries (owned header.session_id t.deliveries)
    × Ascends (λ (d : StoredDelivery). d.sequence) stored.deliveries

-- The sessions are those of the rows, the oldest first, up to the limit.
abbrev pub AreLoaded : Tables → List StoredSession → Type 0
AreLoaded t stored =
    (rows : List StoredSessionHeader) × Perm rows t.sessions
    × Ascends (λ (h : StoredSessionHeader). h.created_at_ms) rows
    × Pairwise (IsLoaded t) (take max_sessions rows) stored

load_rest-IsLoaded :
    (io : Io) (k : ℕ) (t : Tables) (headers : List StoredSessionHeader)
    {stored : List StoredSession}
    → load_rest io k t headers ≡ ok stored
    → Pairwise (IsLoaded t) headers stored
unfolding load_rest load_events load_deliveries
load_rest-IsLoaded io k t [] {stored} e =
    subst (Pairwise (IsLoaded t) []) (ok-injective [] stored e) tt
load_rest-IsLoaded io k t (header ∷ headers) {stored} e =
    let first : StoredSession = record {
      header = header;
      events = load_events header.session_id t;
      deliveries = load_deliveries header.session_id t;
    } in
    let (selected, e1) = >>-eq-ok (statement database (io k)) _ e in
    let (read, e2) = >>-eq-ok (statement database (io (k + 1))) _ e1 in
    let (others, are_others, e3) = >>=-eq-ok (load_rest io (k + 2) t headers) _ e2 in
    subst (Pairwise (IsLoaded t) (header ∷ headers)) (ok-injective (first ∷ others) stored e3) (
      (
        refl,
        order_by-perm (λ (e : StoredEvent). e.sequence) (owned header.session_id t.events),
        order_by-Ascends (λ (e : StoredEvent). e.sequence) (owned header.session_id t.events),
        order_by-perm (λ (d : StoredDelivery). d.sequence) (owned header.session_id t.deliveries),
        order_by-Ascends (λ (d : StoredDelivery). d.sequence)
            (owned header.session_id t.deliveries),
      ),
      load_rest-IsLoaded io (k + 2) t headers are_others,
    )

pub load_sessions-AreLoaded :
    (io : Io) (t : Tables) {stored : List StoredSession}
    → load_sessions io t ≡ ok stored
    → AreLoaded t stored
unfolding load_sessions
load_sessions-AreLoaded io t {stored} e =
    let (selected, e1) = >>-eq-ok (statement database (io 0)) _ e in
    (
      order_by (λ (h : StoredSessionHeader). h.created_at_ms) t.sessions,
      order_by-perm (λ (h : StoredSessionHeader). h.created_at_ms) t.sessions,
      order_by-Ascends (λ (h : StoredSessionHeader). h.created_at_ms) t.sessions,
      load_rest-IsLoaded io 1 t _ e1,
    )
