-- ===== src/Tests/Equality.antt =====
-- Exact tests of equality, for the comparisons that Observe makes.
use provider_temporal.Base.{
  ◌≡◌, refl, sym, ap, ◌∙◌, ◌↔◌, String, Bool, true, false, ◌&&◌, Option, none, some, List, [], ◌∷◌,
  ◌==◌, eq_iff, arith,
}
use provider_temporal.Base.Int.{ℤ, pos, negsuc, eqb_ℤ}
use provider_temporal.Go.Json.{StringMap}
use provider_temporal.Clients.Namespace.Compare.{NamespaceCompare}
use provider_temporal.Clients.SearchAttribute.Compare.{SearchAttributeCompare}
use provider_temporal.Controller.Managed.{Cmp, IsExact}

pub record Exact (A : Type 0) : Type 0 where
  pub same : A → A → Bool
  pub exact : (a b : A) → (same a b ≡ true) ↔ (a ≡ b)

abbrev strings : Exact String
strings = record { same = λ a b. a == b; exact = λ a b. eq_iff a b }

pub integers_exact : (a b : ℤ) → (eqb_ℤ a b ≡ true) ↔ (a ≡ b)
integers_exact (pos m) (pos n) = (λ h. ground arith, λ h. ground arith)
integers_exact (negsuc m) (negsuc n) = (λ h. ground arith, λ h. ground arith)
integers_exact (pos m) (negsuc n) = (λ h. cc, λ h. cc)
integers_exact (negsuc m) (pos n) = (λ h. cc, λ h. cc)

abbrev integers : Exact ℤ
integers = record { same = eqb_ℤ; exact = integers_exact }

pub and_true : (a b : Bool) → (a && b) ≡ true → (a ≡ true) × (b ≡ true)
and_true true b h = (refl, h)
and_true false b h = cc

module _ {A B : Type 0} (x : Exact A) (y : Exact B) where
  abbrev pub both : A × B → A × B → Bool
  both (a, b) (c, d) = x.same a c && y.same b d

  pub both_exact : (p q : A × B) → (both p q ≡ true) ↔ (p ≡ q)
  both_exact (a, b) (c, d) = (
    (λ h.
        let r = and_true _ _ h in
        let e = (x.exact a c).0 r.0 in let f = (y.exact b d).0 r.1 in λ i. (e i, f i)),
    λ h. rw ((x.exact a c).1 (ap (λ v. v.0) h), (y.exact b d).1 (ap (λ v. v.1) h)) refl,
  )

infixr 4 ◌⊗◌
abbrev ◌⊗◌ : {A B : Type 0} → Exact A → Exact B → Exact (A × B)
x ⊗ y = record { same = both x y; exact = both_exact x y }

module _ {A : Type 0} (x : Exact A) where
  abbrev pub same_option : Option A → Option A → Bool
  same_option none none = true
  same_option (some a) (some b) = x.same a b
  same_option _ _ = false

  pub option_exact : (o p : Option A) → (same_option o p ≡ true) ↔ (o ≡ p)
  option_exact none none = (λ _. refl, λ _. refl)
  option_exact (some a) (some b) = (λ h. ap some ((x.exact a b).0 h), λ h. (x.exact a b).1 (cc))
  option_exact none (some b) = (λ h. cc, λ h. cc)
  option_exact (some a) none = (λ h. cc, λ h. cc)

  abbrev pub same_list : List A → List A → Bool
  same_list [] [] = true
  same_list (a ∷ xs) (b ∷ ys) = x.same a b && same_list xs ys
  same_list _ _ = false

  pub list_exact : (l m : List A) → (same_list l m ≡ true) ↔ (l ≡ m)
  list_exact [] [] = (λ _. refl, λ _. refl)
  list_exact (a ∷ xs) (b ∷ ys) = (
    (λ h.
        let r = and_true _ _ h in
        let e = (x.exact a b).0 r.0 in let f = (list_exact xs ys).0 r.1 in λ i. e i ∷ f i),
    λ h. rw ((x.exact a b).1 (cc), (list_exact xs ys).1 (cc)) refl,
  )
  list_exact [] (b ∷ ys) = (λ h. cc, λ h. cc)
  list_exact (a ∷ xs) [] = (λ h. cc, λ h. cc)

abbrev options : {A : Type 0} → Exact A → Exact (Option A)
options x = record { same = same_option x; exact = option_exact x }

abbrev lists : {A : Type 0} → Exact A → Exact (List A)
lists x = record { same = same_list x; exact = list_exact x }

abbrev maps : Exact StringMap
maps = options (lists (strings ⊗ strings))

-- A comparison by the fields.
module _ {A B : Type 0} (x : Exact B) (f : A → B) (g : B → A) (back : (a : A) → g (f a) ≡ a) where
  pub by_fields_exact : (a b : A) → (x.same (f a) (f b) ≡ true) ↔ (a ≡ b)
  by_fields_exact a b = (
    λ h. sym (back a) ∙ ap g ((x.exact (f a) (f b)).0 h) ∙ back b,
    λ h. (x.exact (f a) (f b)).1 (ap f h),
  )

abbrev NamespaceFields : Type 0
NamespaceFields =
    String
    × (Option String
        × (Option String
            × (ℤ × (Option StringMap × (String × (Option String × (String × Option String)))))))

abbrev namespace_fields : Exact NamespaceFields
namespace_fields =
    strings
    ⊗ options strings
    ⊗ options strings
    ⊗ integers
    ⊗ options maps
    ⊗ strings
    ⊗ options strings
    ⊗ strings
    ⊗ options strings

abbrev of_namespace : NamespaceCompare → NamespaceFields
of_namespace c = (
  c.name,
  (
    c.description,
    (
      c.owner_email,
      (
        c.workflow_execution_retention_days,
        (
          c.data_map,
          (
            c.history_archival_state,
            (c.history_archival_uri, (c.visibility_archival_state, c.visibility_archival_uri)),
          ),
        ),
      ),
    ),
  ),
)

abbrev pub cmp_namespace : Cmp NamespaceCompare
cmp_namespace = record {
  equal = λ a b. namespace_fields.same (of_namespace a) (of_namespace b);
  diff = λ a b. "differs";
}

pub cmp_namespace-IsExact : IsExact cmp_namespace
cmp_namespace-IsExact =
    by_fields_exact namespace_fields of_namespace
      (λ (n, (d, (o, (r, (m, (hs, (hu, (vs, vu)))))))). record {
        name = n;
        description = d;
        owner_email = o;
        workflow_execution_retention_days = r;
        data_map = m;
        history_archival_state = hs;
        history_archival_uri = hu;
        visibility_archival_state = vs;
        visibility_archival_uri = vu;
      })
      (λ a. refl)

abbrev attribute_fields : Exact (String × (String × Option String))
attribute_fields = strings ⊗ strings ⊗ options strings

abbrev of_attribute : SearchAttributeCompare → String × (String × Option String)
of_attribute c = (c.name, (c.type, c.temporal_namespace_name))

abbrev pub cmp_attribute : Cmp SearchAttributeCompare
cmp_attribute = record {
  equal = λ a b. attribute_fields.same (of_attribute a) (of_attribute b);
  diff = λ a b. "differs";
}

pub cmp_attribute-IsExact : IsExact cmp_attribute
cmp_attribute-IsExact =
    by_fields_exact attribute_fields of_attribute
      (λ (n, (t, m)). record { name = n; type = t; temporal_namespace_name = m }) (λ a. refl)
