-- ===== src/Mysql/Life.antt =====
-- The life of the client library: the constructor of the first object opens it, the destructor of
-- the last closes it.
use test.Prelude.{
  ℕ, suc, ◌+◌, ◌<◌, ◌≡◌, ◌∙◌, ◌↔◌, refl, sym, ap, subst, inl, inr, arith, true, false,
}
use test.Prelude.Tests.{◌==◌, if◌then◌else◌, Bool-cases}
use test.Prelude.Int.{pos}
use test.Mysql.Client.{Client}
use test.Mysql.Session.{State}
use test.Mysql.Connection

module _ (c : Client) where
  abbrev at_count : State c → ℕ → State c
  at_count s n = record { object = s.object; instances = pos n; world = s.world }

  counted : (s : State c) (n : ℕ) → s.instances ≡ pos n → s ≡ at_count s n
  counted s n e = ap (λ i. record { object = s.object; instances = i; world = s.world }) e

  construct_at :
      (s : State c) (n : ℕ)
      → ((Connection.construct_body c (at_count s n)).1.instances ≡ pos (n + 1))
        × ((Connection.construct_body c (at_count s n)).1.world
            ≡ (if n == 0 then c.library_init s.world else s.world))
  unfolding Connection.construct_body
  construct_at s n = elim (Bool-cases (n == 0)) [
    | inl e ↦ let one : (n + 1 == 1) ≡ true = ground arith in rw (one, e) (refl, refl)
    | inr e ↦ let more : (n + 1 == 1) ≡ false = ground arith in rw (more, e) (refl, refl)
  ]

  destruct_at :
      (s : State c) (n : ℕ)
      → ((Connection.destruct c (at_count s (suc n))).1.instances ≡ pos n)
        × ((Connection.destruct c (at_count s (suc n))).1.world
            ≡ (if n == 0 then c.library_end s.world else s.world))
  unfolding Connection.destruct
  destruct_at s n = elim (Bool-cases (n == 0)) [
    | inl e ↦ rw e (refl, refl)
    | inr e ↦ rw e (refl, refl)
  ]

  module _ (IsUp : c.World → Type 0) where
    -- The states that a program reaches with `n` objects alive: it starts with none and the library
    -- closed, makes objects, destroys them, and does other work, which neither opens nor closes the
    -- library and leaves the counter alone.
    pub data Lives : ℕ → State c → Type 0 where
      begin : {n : ℕ} {s : State c} → n ≡ 0 → s.instances ≡ pos 0 → ¬ IsUp s.world → Lives n s
      born :
          {n n' : ℕ} {s s' : State c}
          → Lives n s
          → n' ≡ suc n
          → s' ≡ (Connection.construct_body c s).1
          → Lives n' s'
      gone :
          {n n' : ℕ} {s s' : State c}
          → Lives n s
          → n ≡ suc n'
          → s' ≡ (Connection.destruct c s).1
          → Lives n' s'
      work :
          {n : ℕ} {s s' : State c}
          → Lives n s
          → s'.instances ≡ s.instances
          → (IsUp s'.world ↔ IsUp s.world)
          → Lives n s'

    -- The library is open exactly while an object is alive.
    abbrev pub IsCounted : ℕ → State c → Type 0
    IsCounted n s = (s.instances ≡ pos n) × (IsUp s.world ↔ (0 < n))

    module _ (opens : (w : c.World) → IsUp (c.library_init w))
        (closes : (w : c.World) → ¬ IsUp (c.library_end w)) where
      born_lem :
          (s s' : State c) (n : ℕ)
          → IsCounted n s
          → s' ≡ (Connection.construct_body c s).1
          → IsCounted (suc n) s'
      born_lem s s' n (e, up) e' =
          let (count, world) = construct_at s n in
          let same = e' ∙ ap (λ s. (Connection.construct_body c s).1) (counted s n e) in
          (
            ap (λ s. s.instances) same ∙ count ∙ ap pos (omega arith),
            subst (λ w. IsUp w ↔ (0 < suc n)) (sym (ap (λ s. s.world) same ∙ world))
                (
                  λ _. omega arith,
                  λ _. elim (Bool-cases (n == 0)) [
                    | inl z ↦ rw z (opens s.world)
                    | inr z ↦ rw z (up.1 (ground arith))
                  ],
                ),
          )

      gone_lem :
          (s s' : State c) (n : ℕ)
          → IsCounted (suc n) s
          → s' ≡ (Connection.destruct c s).1
          → IsCounted n s'
      gone_lem s s' n (e, up) e' =
          let (count, world) = destruct_at s n in
          let same = e' ∙ ap (λ s. (Connection.destruct c s).1) (counted s (suc n) e) in
          (
            ap (λ s. s.instances) same ∙ count,
            subst (λ w. IsUp w ↔ (0 < n)) (sym (ap (λ s. s.world) same ∙ world))
                (elim (Bool-cases (n == 0)) [
                  | inl z ↦ rw z (λ u. absurd (closes s.world u), λ lt. ground arith)
                  | inr z ↦ rw z (λ _. ground arith, λ _. up.1 (omega arith))
                ]),
          )

      -- If the library is open after mysql_library_init and closed after mysql_library_end,
      -- then in every state that a program reaches from a closed library and a counter of
      -- 0, by making and destroying objects and by work that neither opens nor closes the
      -- library nor changes the counter, the counter of the class is the number of the
      -- objects alive, and the library is open exactly if there is one.
      pub Lives-IsCounted : (n : ℕ) (s : State c) → Lives n s → IsCounted n s
      Lives-IsCounted n s (begin z e closed) =
          (e ∙ ap pos (sym z), (λ u. absurd (closed u), λ lt. absurd (omega arith)))
      Lives-IsCounted n s (born {n = k} {s = t} l e e') =
          subst (λ n. IsCounted n s) (sym e) (born_lem t s k (Lives-IsCounted k t l) e')
      Lives-IsCounted n s (gone {n = k} {s = t} l e e') =
          gone_lem t s n (subst (λ k. IsCounted k t) e (Lives-IsCounted k t l)) e'
      Lives-IsCounted n s (work {s = t} l e up) =
          let (count, open_now) = Lives-IsCounted n t l in
          (e ∙ count, (λ u. open_now.0 (up.0 u), λ lt. up.1 (open_now.1 lt)))
