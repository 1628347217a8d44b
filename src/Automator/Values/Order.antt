-- ===== src/Automator/Values/Order.antt =====
-- src/automator.c: how the comparators of value_cmp belong together, and text for a Boolean.
use mea_edomus_lite.Common.{
  ℕ, zero, suc, ◌≡◌, refl, ◌==◌, arith, Bool, false, not, ◌&&◌, ◌||◌, some,
}
use mea_edomus_lite.Common.Int.{ℤ, pos, negsuc, ◌-ℤ◌}
use mea_edomus_lite.Text.Compare.{strcmplower}
use mea_edomus_lite.Automator.{Reals, Value, number, string, boolean, undefined}
use mea_edomus_lite.Automator.Values.{
  Comparator, o_eq, o_ne, o_gr, o_lo, o_ge, o_le, compares, differs, value_cmp, sign_of,
}

-- The six comparators are those of one order: of `=`, `<` and `>` at most one holds, and the other
-- three are made of them.
abbrev pub Consistent : (Comparator → Bool) → Type 0
Consistent c =
    (c o_ne ≡ not (c o_eq))
    × ((c o_le ≡ (c o_lo || c o_eq))
        × ((c o_ge ≡ (c o_gr || c o_eq))
            × (((c o_lo && c o_eq) ≡ false)
                × (((c o_gr && c o_eq) ≡ false) × ((c o_lo && c o_gr) ≡ false)))))

positive : (n : ℕ) → (suc n == 0) ≡ false
positive n = ground arith

compares-Consistent : (cmp : ℤ) → Consistent (λ op. compares op cmp)
unfolding compares
compares-Consistent (pos zero) = (refl, (refl, (refl, (refl, (refl, refl)))))
compares-Consistent (pos (suc n)) = rw (positive n) (refl, (refl, (refl, (refl, (refl, refl)))))
compares-Consistent (negsuc n) = (refl, (refl, (refl, (refl, (refl, refl)))))

differs-Consistent : Consistent differs
unfolding differs
differs-Consistent = (refl, (refl, (refl, (refl, (refl, refl)))))

module _ {D : Type 0} (rl : Reals D) where
  -- On any two values, the six comparators of value_cmp are those of one order: at most one of
  -- ==, < and > holds, != is the opposite of ==, and <= and >= are < or == and > or ==.
  pub value_cmp-Consistent : (a b : Value D) → Consistent (λ op. value_cmp rl a op b)
  unfolding value_cmp
  value_cmp-Consistent (number a) (number b) = compares-Consistent (sign_of rl (rl.fp.sub a b))
  value_cmp-Consistent (string a) (string b) = compares-Consistent (strcmplower (some a) (some b))
  value_cmp-Consistent (boolean a) (boolean b) = compares-Consistent (a -ℤ b)
  value_cmp-Consistent (undefined a) (undefined b) = compares-Consistent (a -ℤ b)
  value_cmp-Consistent (number a) (string b) = differs-Consistent
  value_cmp-Consistent (number a) (boolean b) = differs-Consistent
  value_cmp-Consistent (number a) (undefined b) = differs-Consistent
  value_cmp-Consistent (string a) (number b) = differs-Consistent
  value_cmp-Consistent (string a) (boolean b) = differs-Consistent
  value_cmp-Consistent (string a) (undefined b) = differs-Consistent
  value_cmp-Consistent (boolean a) (number b) = differs-Consistent
  value_cmp-Consistent (boolean a) (string b) = differs-Consistent
  value_cmp-Consistent (boolean a) (undefined b) = differs-Consistent
  value_cmp-Consistent (undefined a) (number b) = differs-Consistent
  value_cmp-Consistent (undefined a) (string b) = differs-Consistent
  value_cmp-Consistent (undefined a) (boolean b) = differs-Consistent
