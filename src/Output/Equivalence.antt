-- ===== src/Output/Equivalence.antt =====
-- `equivalent_display_area` of miral/output.cpp as a relation.
use miral.Prelude.{◌≡◌, Bool, true, arith, ◌&&◌, ◌==◌, ℕ}
use miral.Prelude.Int.{ℤ, eqb_ℤ}
use miral.Geometry.{Rectangle, rectangle_eq}
use miral.Output.{Output, PhysicalSizeMm, physical_size_eq, same_area, equivalent_display_area}

-- If each of two tests is transitive, so is their conjunction.
&&_trans :
    {a b c p q r : Bool}
    → (a ≡ true → b ≡ true → c ≡ true)
    → (p ≡ true → q ≡ true → r ≡ true)
    → a && p ≡ true
    → b && q ≡ true
    → c && r ≡ true
&&_trans {a} {b} {c} {p} {q} {r} f g h k = ground arith

==_trans : (a b c : ℕ) → a == b ≡ true → b == c ≡ true → a == c ≡ true
==_trans a b c h k = ground arith

eqb_ℤ_trans : (a b c : ℤ) → eqb_ℤ a b ≡ true → eqb_ℤ b c ≡ true → eqb_ℤ a c ≡ true
eqb_ℤ_trans a b c h k = ground arith

rectangle_eq_trans :
    (a b c : Rectangle)
    → rectangle_eq a b ≡ true
    → rectangle_eq b c ≡ true
    → rectangle_eq a c ≡ true
rectangle_eq_trans a b c =
    &&_trans
      (&&_trans (eqb_ℤ_trans a.top_left.x b.top_left.x c.top_left.x)
        (eqb_ℤ_trans a.top_left.y b.top_left.y c.top_left.y))
      (&&_trans (eqb_ℤ_trans a.size.width b.size.width c.size.width)
        (eqb_ℤ_trans a.size.height b.size.height c.size.height))

physical_size_eq_trans :
    (a b c : PhysicalSizeMm)
    → physical_size_eq a b ≡ true
    → physical_size_eq b c ≡ true
    → physical_size_eq a c ≡ true
physical_size_eq_trans a b c =
    &&_trans (eqb_ℤ_trans a.width b.width c.width) (eqb_ℤ_trans a.height b.height c.height)

same_area_refl : (a : Output) → same_area a a ≡ true
unfolding same_area
same_area_refl a = ground arith

same_area_sym : (a b : Output) → same_area a b ≡ true → same_area b a ≡ true
unfolding same_area
same_area_sym a b h = ground arith

same_area_trans :
    (a b c : Output) → same_area a b ≡ true → same_area b c ≡ true → same_area a c ≡ true
unfolding same_area
same_area_trans a b c =
    &&_trans
      (&&_trans
        (&&_trans
          (&&_trans
            (&&_trans
              (&&_trans (rectangle_eq_trans a.extents b.extents c.extents)
                (==_trans a.form_factor b.form_factor c.form_factor))
              (==_trans a.orientation b.orientation c.orientation))
            (==_trans a.pixel_format b.pixel_format c.pixel_format))
          (physical_size_eq_trans a.physical_size_mm b.physical_size_mm c.physical_size_mm))
        (==_trans a.scale b.scale c.scale))
      (==_trans a.type b.type c.type)

pub equivalent_display_area_refl : (a : Output) → equivalent_display_area a a ≡ true
unfolding equivalent_display_area
equivalent_display_area_refl a = ground (arith, same_area_refl a)

pub equivalent_display_area_sym :
    (a b : Output) → equivalent_display_area a b ≡ true → equivalent_display_area b a ≡ true
unfolding equivalent_display_area
equivalent_display_area_sym a b h = ground (arith, same_area_sym a b)

pub equivalent_display_area_trans :
    (a b c : Output)
    → equivalent_display_area a b ≡ true
    → equivalent_display_area b c ≡ true
    → equivalent_display_area a c ≡ true
unfolding equivalent_display_area
equivalent_display_area_trans a b c h k = ground (arith, same_area_trans a b c)

-- Each output is equivalent to itself, the order of the arguments makes no difference, and each output compares
-- alike with two that are equivalent.
pub equivalent_display_area-equivalence :
    (a b c : Output)
    → equivalent_display_area b c ≡ true
    → (equivalent_display_area a a ≡ true)
      × (equivalent_display_area a b ≡ equivalent_display_area b a)
      × (equivalent_display_area a b ≡ equivalent_display_area a c)
equivalent_display_area-equivalence a b c h = (
  equivalent_display_area_refl a,
  ground (arith, equivalent_display_area_sym a b, equivalent_display_area_sym b a),
  ground (
    arith,
    equivalent_display_area_trans a b c,
    equivalent_display_area_trans a c b,
    equivalent_display_area_sym b c,
  ),
)
