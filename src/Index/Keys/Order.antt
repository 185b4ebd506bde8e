-- ===== src/Index/Keys/Order.antt =====
-- The comparisons are total orders: what a sorted index needs of its keys.
use di_traffic_database.Common.{
  Bool, true, false, not, ◌&&◌, ◌≡◌, ◌↔◌, refl, arith, ==_iff, if◌then◌else◌, ap, ap₂, sym, ◌∙◌,
}
use di_traffic_database.Index.Keys.{
  Comparisons, numbers, ipv6_lt, ipv6_gt, ipv6_eq, ipv6_comparisons, ipv4_key_lt, ipv4_key_gt,
  ipv4_key_eq, ipv4_key_comparisons, ipv6_key_lt, ipv6_key_gt, ipv6_key_eq, ipv6_key_comparisons,
}

-- `<` is a strict total order, `>` is its converse, `==` is equality, and the other three agree with
-- them.
pub record IsTotalOrder {A : Type 0} (c : Comparisons A) : Type 0 where
  pub irreflexive : (a : A) → c.lt a a ≡ false
  pub transitive : (x y z : A) → c.lt x y ≡ true → c.lt y z ≡ true → c.lt x z ≡ true
  pub connected : (a b : A) → c.lt a b ≡ false → c.lt b a ≡ false → a ≡ b
  pub flipped : (a b : A) → c.gt a b ≡ c.lt b a
  pub equality : (a b : A) → (c.eq a b ≡ true) ↔ (a ≡ b)
  pub unequal : (a b : A) → c.ne a b ≡ not (c.eq a b)
  pub at_most : (a b : A) → c.le a b ≡ not (c.lt b a)
  pub at_least : (a b : A) → c.ge a b ≡ not (c.lt a b)

pub numbers-IsTotalOrder : IsTotalOrder numbers
numbers-IsTotalOrder = record {
  irreflexive = λ a. ground arith;
  transitive = λ x y z e f. ground arith;
  connected = λ a b e f. ground arith;
  flipped = λ a b. refl;
  equality = ==_iff;
  unequal = λ a b. refl;
  at_most = λ a b. refl;
  at_least = λ a b. refl;
}

module _ {A B : Type 0} (c : Comparisons A) (d : Comparisons B) where
  -- The first components decide, unless they are equal.
  abbrev lex_lt : A × B → A × B → Bool
  lex_lt a b = if c.lt a.0 b.0 then true else if c.gt a.0 b.0 then false else d.lt a.1 b.1

  abbrev lex_gt : A × B → A × B → Bool
  lex_gt a b = if c.gt a.0 b.0 then true else if c.lt a.0 b.0 then false else d.gt a.1 b.1

  abbrev lex_eq : A × B → A × B → Bool
  lex_eq a b = c.eq a.0 b.0 && d.eq a.1 b.1

  abbrev lex : Comparisons (A × B)
  lex = record {
    lt = lex_lt;
    gt = lex_gt;
    eq = lex_eq;
    ne = λ a b. not (lex_eq a b);
    le = λ a b. not (lex_gt a b);
    ge = λ a b. not (lex_lt a b);
  }

  lex-IsTotalOrder : IsTotalOrder c → IsTotalOrder d → IsTotalOrder lex
  lex-IsTotalOrder u v = record {
    irreflexive = λ a. ground (arith, u.irreflexive a.0, v.irreflexive a.1, u.flipped a.0 a.0);
    transitive = λ x y z e f. ground (
      arith,
      u.flipped x.0 y.0,
      u.flipped y.0 z.0,
      u.flipped x.0 z.0,
      u.transitive x.0 y.0 z.0,
      u.connected x.0 y.0,
      u.connected y.0 z.0,
      u.irreflexive x.0,
      v.transitive x.1 y.1 z.1,
    );
    connected = λ a b e f.
        ap₂ (λ s t. (s, t))
          (u.connected a.0 b.0 (ground (arith, u.flipped a.0 b.0))
            (ground (arith, u.flipped a.0 b.0, u.flipped b.0 a.0)))
          (v.connected a.1 b.1 (ground (arith, u.flipped a.0 b.0))
            (ground (arith, u.flipped a.0 b.0, u.flipped b.0 a.0)));
    flipped = λ a b. ground (arith, u.flipped a.0 b.0, u.flipped b.0 a.0, v.flipped a.1 b.1);
    equality = λ a b. (
      λ e.
          ap₂ (λ s t. (s, t)) ((u.equality a.0 b.0).0 (ground arith))
            ((v.equality a.1 b.1).0 (ground arith)),
      λ p. rw ((u.equality a.0 b.0).1 (ap (λ t. t.0) p), (v.equality a.1 b.1).1 (ap (λ t. t.1) p)),
    );
    unequal = λ a b. refl;
    at_most = λ a b. ground (arith, u.flipped a.0 b.0, u.flipped b.0 a.0, v.flipped a.1 b.1);
    at_least = λ a b. refl;
  }

-- A class whose operators are those of its fields, `f`, inherits their order.
pullback-IsTotalOrder :
    {A B : Type 0} (f : A → B) (c : Comparisons A) (d : Comparisons B)
    → ((a b : A) → f a ≡ f b → a ≡ b)
    → ((a b : A) → c.lt a b ≡ d.lt (f a) (f b))
    → ((a b : A) → c.gt a b ≡ d.gt (f a) (f b))
    → ((a b : A) → c.eq a b ≡ d.eq (f a) (f b))
    → ((a b : A) → c.ne a b ≡ not (c.eq a b))
    → ((a b : A) → c.le a b ≡ not (c.gt a b))
    → ((a b : A) → c.ge a b ≡ not (c.lt a b))
    → IsTotalOrder d
    → IsTotalOrder c
pullback-IsTotalOrder f c d injective lt gt eq ne le ge v = record {
  irreflexive = λ a. lt a a ∙ v.irreflexive (f a);
  transitive =
      λ x y z p q. lt x z ∙ v.transitive (f x) (f y) (f z) (sym (lt x y) ∙ p) (sym (lt y z) ∙ q);
  connected =
      λ a b p q. injective a b (v.connected (f a) (f b) (sym (lt a b) ∙ p) (sym (lt b a) ∙ q));
  flipped = λ a b. gt a b ∙ v.flipped (f a) (f b) ∙ sym (lt b a);
  equality = λ a b. (
    λ p. injective a b ((v.equality (f a) (f b)).0 (sym (eq a b) ∙ p)),
    λ p. eq a b ∙ (v.equality (f a) (f b)).1 (ap f p),
  );
  unequal = ne;
  at_most = λ a b. le a b ∙ ap not (gt a b ∙ v.flipped (f a) (f b) ∙ sym (lt b a));
  at_least = ge;
}

-- The comparisons of IPv6 addresses are a total order.
pub ipv6-IsTotalOrder : IsTotalOrder ipv6_comparisons
unfolding ipv6_comparisons ipv6_lt ipv6_gt ipv6_eq
ipv6-IsTotalOrder =
    pullback-IsTotalOrder (λ a. (a.high, a.low)) ipv6_comparisons (lex numbers numbers)
      (λ a b p. ap (λ t. record { low = t.1; high = t.0 }) p) (λ a b. refl) (λ a b. refl)
      (λ a b. refl) (λ a b. refl) (λ a b. refl) (λ a b. refl)
      (lex-IsTotalOrder numbers numbers numbers-IsTotalOrder numbers-IsTotalOrder)

-- The comparisons of IPv4 flow keys are a total order.
pub ipv4_key-IsTotalOrder : IsTotalOrder ipv4_key_comparisons
unfolding ipv4_key_comparisons ipv4_key_lt ipv4_key_gt ipv4_key_eq
ipv4_key-IsTotalOrder =
    pullback-IsTotalOrder (λ a. (a.src_ip, (a.dst_ip, (a.src_port, a.dst_port))))
      ipv4_key_comparisons (lex numbers (lex numbers (lex numbers numbers)))
      (λ a b p.
        ap (λ t. record { dst_port = t.1.1.1; src_port = t.1.1.0; dst_ip = t.1.0; src_ip = t.0 }) p)
      (λ a b. refl) (λ a b. refl) (λ a b. refl) (λ a b. refl) (λ a b. refl) (λ a b. refl)
      (lex-IsTotalOrder numbers _ numbers-IsTotalOrder (
        lex-IsTotalOrder numbers _ numbers-IsTotalOrder
          (lex-IsTotalOrder numbers numbers numbers-IsTotalOrder numbers-IsTotalOrder)))

-- The comparisons of IPv6 flow keys are a total order.
pub ipv6_key-IsTotalOrder : IsTotalOrder ipv6_key_comparisons
unfolding ipv6_key_comparisons ipv6_key_lt ipv6_key_gt ipv6_key_eq ipv6_comparisons
ipv6_key-IsTotalOrder =
    pullback-IsTotalOrder (λ a. (a.src_ip, (a.dst_ip, (a.src_port, a.dst_port))))
      ipv6_key_comparisons (lex ipv6_comparisons (lex ipv6_comparisons (lex numbers numbers)))
      (λ a b p.
        ap (λ t. record { dst_port = t.1.1.1; src_port = t.1.1.0; dst_ip = t.1.0; src_ip = t.0 }) p)
      (λ a b. refl) (λ a b. refl) (λ a b. refl) (λ a b. refl) (λ a b. refl) (λ a b. refl)
      (lex-IsTotalOrder ipv6_comparisons _ ipv6-IsTotalOrder (
        lex-IsTotalOrder ipv6_comparisons _ ipv6-IsTotalOrder
          (lex-IsTotalOrder numbers numbers numbers-IsTotalOrder numbers-IsTotalOrder)))
