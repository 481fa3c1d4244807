-- ===== src/Epoller/Watched.antt =====
-- The map of the poller and what the kernel watches.
use http_nest.Prelude.{
  ℕ, ◌≡◌, ◌∙◌, refl, sym, ap, inl, inr, Bool, true, false, List, [], ◌∷◌, ◌++◌, Option, none, some,
  if◌then◌else◌, Option-cases, Bool-cases, arith, subst,
}
use http_nest.Prelude.Int.{ℤ, pos, negsuc}
use http_nest.Channel.{Channel, Events}
use http_nest.Epoller.{
  eq_ℤ, find, erase, Control, control_add, control_del, control_mod, Epoller, new_epoller, control,
  add_channel, remove_channel, update_channel, poll,
}

-- Whether the kernel watches a descriptor after these calls.
unfoldable pub watches : List Control → ℤ → Bool → Bool
watches [] fd before = before
watches (control_add key ev ∷ calls) fd before =
    watches calls fd (if eq_ℤ fd key then true else before)
watches (control_del key ∷ calls) fd before =
    watches calls fd (if eq_ℤ fd key then false else before)
watches (control_mod key ev ∷ calls) fd before = watches calls fd before

watches-append :
    (xs ys : List Control) (fd : ℤ) (before : Bool)
    → watches (xs ++ ys) fd before ≡ watches ys fd (watches xs fd before)
unfolding watches
watches-append [] ys fd before = refl
watches-append (control_add key ev ∷ xs) ys fd before = watches-append xs ys fd _
watches-append (control_del key ∷ xs) ys fd before = watches-append xs ys fd _
watches-append (control_mod key ev ∷ xs) ys fd before = watches-append xs ys fd before

abbrev pub is_some : Option ℕ → Bool
is_some none = false
is_some (some id) = true

pub eq_ℤ→≡ : (a b : ℤ) → eq_ℤ a b ≡ true → a ≡ b
eq_ℤ→≡ (pos m) (pos n) e = let e' : m ≡ n = ground arith in ap pos e'
eq_ℤ→≡ (pos m) (negsuc n) e = cc
eq_ℤ→≡ (negsuc m) (pos n) e = cc
eq_ℤ→≡ (negsuc m) (negsuc n) e = let e' : m ≡ n = ground arith in ap negsuc e'

pub eq_ℤ_refl : (a : ℤ) → eq_ℤ a a ≡ true
eq_ℤ_refl (pos m) = ground arith
eq_ℤ_refl (negsuc m) = ground arith

find-erase :
    (fd key : ℤ) (map : List (ℤ × ℕ))
    → is_some (find fd (erase key map)) ≡ (if eq_ℤ fd key then false else is_some (find fd map))
unfolding find erase
find-erase fd key [] = elim (Bool-cases (eq_ℤ fd key)) [ inl e ↦ rw e refl | inr e ↦ rw e refl ]
find-erase fd key ((k, id) ∷ map) = elim (Bool-cases (eq_ℤ key k)) [
  | inl e ↦
      rw (e, find-erase fd key map, ← eq_ℤ→≡ key k e)
        (elim (Bool-cases (eq_ℤ fd key)) [ inl d ↦ rw d refl | inr d ↦ rw d refl ])
  | inr e ↦ rw e (elim (Bool-cases (eq_ℤ fd k)) [
    | inl d ↦ rw (d, eq_ℤ→≡ fd k d, other key k e) refl
    | inr d ↦ rw d (find-erase fd key map)
  ])
]
  where
    other : (key k : ℤ) → eq_ℤ key k ≡ false → eq_ℤ k key ≡ false
    other key k e = elim (Bool-cases (eq_ℤ k key)) [
      | inl d ↦
          let same = eq_ℤ→≡ k key d in
          let r = eq_ℤ_refl key in
          let e' : eq_ℤ key key ≡ false = subst (λ x. eq_ℤ key x ≡ false) same e in cc
      | inr d ↦ d
    ]

-- A step of the poller: an operation whose `epoll_ctl` did not fail, or a `Poll`.
pub data Step : Epoller → Epoller → Type 0 where
  adds : (p p' : Epoller) (id : ℕ) (ch : Channel) → add_channel p id ch true ≡ some p' → Step p p'
  removes : (p p' : Epoller) (ch : Channel) → remove_channel p ch true ≡ some p' → Step p p'
  updates : (p p' : Epoller) (ch : Channel) → update_channel p ch true ≡ some p' → Step p p'
  polls :
      (p p' : Epoller) (reported : List (ℤ × Events)) (found : List (ℕ × Events))
      → poll p (some reported) ≡ some (found, p')
      → Step p p'

pub data Reach : Epoller → Type 0 where
  start : (max_event : ℕ) → Reach (new_epoller max_event)
  next : {p p' : Epoller} → Reach p → Step p p' → Reach p'

abbrev pub Watched : Epoller → Type 0
Watched p = (fd : ℤ) → watches p.controls fd false ≡ is_some (find fd p.channels)

-- The same where there may be no result.
abbrev WatchedAfter : Option Epoller → Type 0
WatchedAfter none = Unit {0}
WatchedAfter (some p) = Watched p

find_cons :
    (fd k : ℤ) (id : ℕ) (map : List (ℤ × ℕ))
    → is_some (find fd ((k, id) ∷ map)) ≡ (if eq_ℤ fd k then true else is_some (find fd map))
unfolding find
find_cons fd k id map = elim (Bool-cases (eq_ℤ fd k)) [ inl d ↦ rw d refl | inr d ↦ rw d refl ]

add_channel-Watched :
    (p : Epoller) (id : ℕ) (ch : Channel) → Watched p → WatchedAfter (add_channel p id ch true)
unfolding add_channel control watches
add_channel-Watched p id ch h = elim (Option-cases (find ch.fd p.channels)) [
  | inl e ↦
      rw (e, WatchedAfter)
        (λ fd.
          watches-append p.controls _ fd false
          ∙ ap (λ b. if eq_ℤ fd ch.fd then true else b) (h fd)
          ∙ sym (find_cons fd ch.fd id p.channels))
  | inr (x, e) ↦ rw (e, WatchedAfter) h
]

remove_channel-Watched :
    (p : Epoller) (ch : Channel) → Watched p → WatchedAfter (remove_channel p ch true)
unfolding remove_channel control watches
remove_channel-Watched p ch h = elim (Option-cases (find ch.fd p.channels)) [
  | inl e ↦ rw (e, WatchedAfter) h
  | inr (x, e) ↦
      rw (e, WatchedAfter)
        (λ fd.
          watches-append p.controls _ fd false
          ∙ ap (λ b. if eq_ℤ fd ch.fd then false else b) (h fd)
          ∙ sym (find-erase fd ch.fd p.channels))
]

update_channel-Watched :
    (p : Epoller) (ch : Channel) → Watched p → WatchedAfter (update_channel p ch true)
unfolding update_channel control watches
update_channel-Watched p ch h = elim (Option-cases (find ch.fd p.channels)) [
  | inl e ↦ rw (e, WatchedAfter) h
  | inr (x, e) ↦ rw (e, WatchedAfter) (λ fd. watches-append p.controls _ fd false ∙ h fd)
]

Step-Watched : {p p' : Epoller} → Step p p' → Watched p → Watched p'
unfolding poll
Step-Watched (adds p p' id ch e) h = subst WatchedAfter e (add_channel-Watched p id ch h)
Step-Watched (removes p p' ch e) h = subst WatchedAfter e (remove_channel-Watched p ch h)
Step-Watched (updates p p' ch e) h = subst WatchedAfter e (update_channel-Watched p ch h)
Step-Watched (polls p p' reported found e) h = subst polled e h
  where
    polled : Option (List (ℕ × Events) × Epoller) → Type 0
    polled none = Unit {0}
    polled (some (found, p)) = Watched p

-- After any operations of a new poller whose calls of epoll_ctl succeed, the kernel watches a
-- descriptor, by those calls, exactly if the map has a channel for it.
pub Reach-Watched : {p : Epoller} → Reach p → Watched p
unfolding watches find
Reach-Watched (start max_event) = λ fd. refl
Reach-Watched (next r st) = Step-Watched st (Reach-Watched r)
