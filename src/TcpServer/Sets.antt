-- ===== src/TcpServer/Sets.antt =====
-- The set of connections and the entries of the map: what is erased from both.
use mathlib.Core.Option.{some-injective}
use http_nest.Prelude.{
  ℕ, suc, ◌<◌, ◌≡◌, ◌∙◌, refl, sym, ap, subst, arith, inl, inr, false, List, [], ◌∷◌, ◌++◌, none,
  some, ◌==◌, ==_iff, ==_ne, Bool-cases, if◌then◌else◌, if_elim,
}
use http_nest.Prelude.Int.{ℤ, pos, negsuc}
use http_nest.Epoller.{eq_ℤ, find, erase}
use http_nest.Epoller.Watched.{eq_ℤ_refl}
use http_nest.TcpConnection.{Conn}
use http_nest.TcpServer.{find_conn, erase_conn}

-- What the map of the poller has for these connections.
abbrev pub entries : List (ℕ × Conn) → List (ℤ × ℕ)
entries [] = []
entries ((id, c) ∷ connections) = (c.channel.fd, id) ∷ entries connections

-- No connection has this number or this descriptor.
abbrev pub Other : ℕ → ℤ → List (ℕ × Conn) → Type 0
Other id fd [] = Unit {0}
Other id fd ((key, c) ∷ l) = ((id == key) ≡ false) × (eq_ℤ fd c.channel.fd ≡ false) × Other id fd l

abbrev pub Apart : List (ℕ × Conn) → Type 0
Apart [] = Unit {0}
Apart ((id, c) ∷ l) = Other id c.channel.fd l × Apart l

abbrev pub Below : ℕ → List (ℕ × Conn) → Type 0
Below n [] = Unit {0}
Below n ((id, c) ∷ l) = (id < n) × Below n l

eq_ℤ_sym : (a b : ℤ) → eq_ℤ a b ≡ eq_ℤ b a
eq_ℤ_sym (pos m) (pos n) = ground arith
eq_ℤ_sym (pos m) (negsuc n) = refl
eq_ℤ_sym (negsuc m) (pos n) = refl
eq_ℤ_sym (negsuc m) (negsuc n) = ground arith

erase_others :
    (id : ℕ) (fd : ℤ) (l : List (ℕ × Conn))
    → Other id fd l
    → (erase_conn id l ≡ l) × (erase fd (entries l) ≡ entries l)
unfolding erase_conn erase
erase_others id fd [] o = (refl, refl)
erase_others id fd ((key, c) ∷ l) o =
    let (a, b) = erase_others id fd l o.2 in (rw (o.0, a) refl, rw (o.1, b) refl)

Other-find_conn :
    (id key : ℕ) (fd : ℤ) (l : List (ℕ × Conn)) (c : Conn)
    → Other key fd l
    → find_conn id l ≡ some c
    → eq_ℤ fd c.channel.fd ≡ false
unfolding find_conn
Other-find_conn id key fd [] c o e = cc
Other-find_conn id key fd ((k, d) ∷ l) c o e = elim (Bool-cases (id == k)) [
  | inl same ↦
      let e' : some d ≡ some c =
        subst (λ b. (if b then some d else find_conn id l) ≡ some c) same e in
      subst (λ x. eq_ℤ fd x.channel.fd ≡ false) (some-injective _ _ e') o.1
  | inr ne ↦
      Other-find_conn id key fd l c o.2
        (subst (λ b. (if b then some d else find_conn id l) ≡ some c) ne e)
]

-- A connection that is found: its descriptor is found too, and both are erased together.
pub found_lem :
    (id : ℕ) (l : List (ℕ × Conn)) (c : Conn)
    → Apart l
    → find_conn id l ≡ some c
    → (find c.channel.fd (entries l) ≡ some id)
      × (erase c.channel.fd (entries l) ≡ entries (erase_conn id l))
unfolding find_conn find erase_conn erase
found_lem id [] c a e = cc
found_lem id ((k, d) ∷ l) c a e = elim (Bool-cases (id == k)) [
  | inl same ↦
      let e' : some d ≡ some c =
        subst (λ b. (if b then some d else find_conn id l) ≡ some c) same e in
      let k' : id ≡ k = (==_iff id k).0 same in
      let both = erase_others k d.channel.fd l a.0 in
      subst
        (λ x.
          (find x.channel.fd (entries ((k, d) ∷ l)) ≡ some id)
          × (erase x.channel.fd (entries ((k, d) ∷ l)) ≡ entries (erase_conn id ((k, d) ∷ l))))
        (some-injective _ _ e')
        (
          rw (eq_ℤ_refl d.channel.fd) (ap some (sym k')),
          rw (eq_ℤ_refl d.channel.fd, same)
              (both.1 ∙ ap entries (sym (subst (λ i. erase_conn i l ≡ l) (sym k') both.0))),
        )
  | inr ne ↦
      let e' : find_conn id l ≡ some c =
        subst (λ b. (if b then some d else find_conn id l) ≡ some c) ne e in
      let apart : eq_ℤ c.channel.fd d.channel.fd ≡ false =
        eq_ℤ_sym c.channel.fd d.channel.fd ∙ Other-find_conn id k d.channel.fd l c a.0 e' in
      let (f, r) = found_lem id l c a.1 e' in
      (rw apart f, rw (apart, ne) (ap (◌∷◌ (d.channel.fd, k)) r))
]

Other-erase_conn :
    (id key : ℕ) (fd : ℤ) (l : List (ℕ × Conn)) → Other key fd l → Other key fd (erase_conn id l)
unfolding erase_conn
Other-erase_conn id key fd [] o = tt
Other-erase_conn id key fd ((k, d) ∷ l) o =
    if_elim (Other key fd) (id == k) (erase_conn id l) ((k, d) ∷ erase_conn id l)
      (λ _. Other-erase_conn id key fd l o.2) (λ _. (o.0, o.1, Other-erase_conn id key fd l o.2))

pub Apart-erase_conn : (id : ℕ) (l : List (ℕ × Conn)) → Apart l → Apart (erase_conn id l)
unfolding erase_conn
Apart-erase_conn id [] a = tt
Apart-erase_conn id ((k, d) ∷ l) a =
    if_elim Apart (id == k) (erase_conn id l) ((k, d) ∷ erase_conn id l)
      (λ _. Apart-erase_conn id l a.1)
      (λ _. (Other-erase_conn id k d.channel.fd l a.0, Apart-erase_conn id l a.1))

pub Below-erase_conn : (id n : ℕ) (l : List (ℕ × Conn)) → Below n l → Below n (erase_conn id l)
unfolding erase_conn
Below-erase_conn id n [] b = tt
Below-erase_conn id n ((k, d) ∷ l) b =
    if_elim (Below n) (id == k) (erase_conn id l) ((k, d) ∷ erase_conn id l)
      (λ _. Below-erase_conn id n l b.1) (λ _. (b.0, Below-erase_conn id n l b.1))

pub Below-suc : (n : ℕ) (l : List (ℕ × Conn)) → Below n l → Below (suc n) l
Below-suc n [] b = tt
Below-suc n ((k, d) ∷ l) b = (omega (arith, b.0), Below-suc n l b.1)

-- A number that is next, and a descriptor that is not found.
pub Other-next :
    (n : ℕ) (fd : ℤ) (l : List (ℕ × Conn)) → Below n l → find fd (entries l) ≡ none → Other n fd l
unfolding find
Other-next n fd [] b e = tt
Other-next n fd ((k, d) ∷ l) b e = elim (Bool-cases (eq_ℤ fd d.channel.fd)) [
  | inl same ↦
      let t : (if eq_ℤ fd d.channel.fd then some k else find fd (entries l)) ≡ some k =
        rw same refl in
      cc
  | inr ne ↦ (
    ==_ne n k (omega (arith, b.0)),
    ne,
    Other-next n fd l b.1 (subst (λ b. (if b then some k else find fd (entries l)) ≡ none) ne e),
  )
]

-- A map in two parts: the connections, and the other channels of the poller, of which none has the
-- descriptor of a connection.
abbrev pub Clear : List (ℤ × ℕ) → List (ℕ × Conn) → Type 0
Clear base [] = Unit {0}
Clear base ((k, d) ∷ l) = (find d.channel.fd base ≡ none) × Clear base l

pub find-append :
    (fd : ℤ) (id : ℕ) (map base : List (ℤ × ℕ))
    → find fd map ≡ some id
    → find fd (map ++ base) ≡ some id
unfolding find
find-append fd id [] base e = cc
find-append fd id ((key, k) ∷ map) base e = elim (Bool-cases (eq_ℤ fd key)) [
  | inl same ↦ rw same (subst (λ b. (if b then some k else find fd map) ≡ some id) same e)
  | inr ne ↦
      rw ne (
        find-append fd id map base
          (subst (λ b. (if b then some k else find fd map) ≡ some id) ne e))
]

pub find-append_none :
    (fd : ℤ) (map base : List (ℤ × ℕ))
    → find fd (map ++ base) ≡ none
    → (find fd map ≡ none) × (find fd base ≡ none)
unfolding find
find-append_none fd [] base e = (refl, e)
find-append_none fd ((key, k) ∷ map) base e = elim (Bool-cases (eq_ℤ fd key)) [
  | inl same ↦
      let t : (if eq_ℤ fd key then some k else find fd (map ++ base)) ≡ some k = rw same refl in cc
  | inr ne ↦
      let both =
        find-append_none fd map base
          (subst (λ b. (if b then some k else find fd (map ++ base)) ≡ none) ne e) in
      (rw ne both.0, both.1)
]

pub erase-append :
    (fd : ℤ) (map base : List (ℤ × ℕ)) → erase fd (map ++ base) ≡ erase fd map ++ erase fd base
unfolding erase
erase-append fd [] base = refl
erase-append fd ((key, k) ∷ map) base = elim (Bool-cases (eq_ℤ fd key)) [
  | inl same ↦ rw same (erase-append fd map base)
  | inr ne ↦ rw ne (ap (◌∷◌ (key, k)) (erase-append fd map base))
]

pub erase_missing : (fd : ℤ) (map : List (ℤ × ℕ)) → find fd map ≡ none → erase fd map ≡ map
unfolding find erase
erase_missing fd [] e = refl
erase_missing fd ((key, k) ∷ map) e = elim (Bool-cases (eq_ℤ fd key)) [
  | inl same ↦ let t : (if eq_ℤ fd key then some k else find fd map) ≡ some k = rw same refl in cc
  | inr ne ↦ rw ne (
      ap (◌∷◌ (key, k))
        (erase_missing fd map (subst (λ b. (if b then some k else find fd map) ≡ none) ne e)))
]

pub Clear-find_conn :
    (base : List (ℤ × ℕ)) (id : ℕ) (l : List (ℕ × Conn)) (c : Conn)
    → Clear base l
    → find_conn id l ≡ some c
    → find c.channel.fd base ≡ none
unfolding find_conn
Clear-find_conn base id [] c v e = cc
Clear-find_conn base id ((k, d) ∷ l) c v e = elim (Bool-cases (id == k)) [
  | inl same ↦
      let e' : some d ≡ some c =
        subst (λ b. (if b then some d else find_conn id l) ≡ some c) same e in
      subst (λ x. find x.channel.fd base ≡ none) (some-injective _ _ e') v.0
  | inr ne ↦
      Clear-find_conn base id l c v.1
        (subst (λ b. (if b then some d else find_conn id l) ≡ some c) ne e)
]

pub Clear-erase_conn :
    (base : List (ℤ × ℕ)) (id : ℕ) (l : List (ℕ × Conn))
    → Clear base l
    → Clear base (erase_conn id l)
unfolding erase_conn
Clear-erase_conn base id [] v = tt
Clear-erase_conn base id ((k, d) ∷ l) v =
    if_elim (Clear base) (id == k) (erase_conn id l) ((k, d) ∷ erase_conn id l)
      (λ _. Clear-erase_conn base id l v.1) (λ _. (v.0, Clear-erase_conn base id l v.1))
