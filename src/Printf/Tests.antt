-- ===== src/Printf/Tests.antt =====
-- `printf` at concrete formats.
use owmice.Base.{◌≡◌, refl, some, [], ◌∷◌, codes}
use owmice.Printf.{
  word, string, ft_putnum, ft_printf_aux, ft_print_dispatch, ft_print_d, ft_print_upper_x,
  ft_print_s,
}

mixed :
    ft_printf_aux
      (codes "%s: %d 0x%X 100%%%")
      (string (codes "cr3") ∷ word 0xFFFFFFF6 ∷ word 0x2f ∷ [])
    ≡ some (codes "cr3: -10 0x2F 100%", 18)
unfolding ft_printf_aux ft_print_dispatch ft_print_d ft_print_upper_x ft_print_s ft_putnum
mixed = refl
