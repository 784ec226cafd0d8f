-- ===== src/Handlers/Cloud/Names.antt =====
-- The names of downloaded files.
use mathlib.Core.List.{append_cancel_left, append_cancel_right}
use caviar_hacker_grid.Base.{ℕ, ◌++◌, ◌≡◌, ◌≢◌, ◌∙◌, sym, ap}
use caviar_hacker_grid.Base.Number.{digits_value}
use caviar_hacker_grid.Base.Text.{Bytes}
use caviar_hacker_grid.Handlers.Cloud.{generate_name}
use caviar_hacker_grid.Http.Decimal.{to_decimal}
use caviar_hacker_grid.Http.Decimal.RoundTrip.{digits_value-to_decimal}

generate_name_injective :
    (file_prefix extension : Bytes) (i j : ℕ)
    → generate_name file_prefix extension i ≡ generate_name file_prefix extension j
    → i ≡ j
unfolding generate_name
generate_name_injective file_prefix extension i j e =
    let tails =
      append_cancel_left file_prefix (to_decimal i ++ extension) (to_decimal j ++ extension) e in
    let numbers = append_cancel_right (to_decimal i) (to_decimal j) extension tails in
    sym (digits_value-to_decimal i) ∙ ap (digits_value 0) numbers ∙ digits_value-to_decimal j

-- Two downloads of files with the same extension, at different counters, have different names.
pub generate_name_ne :
    (file_prefix extension : Bytes) (i j : ℕ)
    → i ≢ j
    → generate_name file_prefix extension i ≢ generate_name file_prefix extension j
generate_name_ne file_prefix extension i j ne e =
    ne (generate_name_injective file_prefix extension i j e)
