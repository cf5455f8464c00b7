-- ===== src/Examples/Setup.antt =====
-- The setup page on concrete inputs.
use gatesentry.Shared.{ℕ, ◌≤◌, ◌+◌, true, false, some, ◌≡◌, refl, ◌⊎◌, truthy, String_eq, ◌↔◌}
use gatesentry.Credentials.{
  SetupApi, Page, answered, submit, blocker, is_disabled, password_has_valid_byte_length,
  utf8_byte_length,
}
use gatesentry.Credentials.Setup.{blocker-eq-empty_iff, is_success, submit_is_answered}

-- A server that counts the accounts that it made.
abbrev counting : SetupApi ℕ
counting = record {
  status = λ s. answered 200 (some false);
  post = λ username password s. (s + 1, some 200);
}

abbrev filled : Page
filled = record {
  username = "admin";
  password = "correct horse";
  confirmation = "correct horse";
  error = "";
  submitting = false;
  status_loaded = true;
  status_failed = false;
  location = "/setup";
}

blocker-eq-empty_iff_example : (truthy (blocker filled).message ≡ false) ↔ (
    (truthy "admin" ≡ true)
    × (12 ≤ utf8_byte_length "correct horse")
    × (utf8_byte_length "correct horse" ≤ 72)
    × (filled.password ≡ filled.confirmation))
blocker-eq-empty_iff_example = blocker-eq-empty_iff filled

submit_is_answered_example :
    ((submit counting (filled, 0)).1 ≡ 1)
    × (((is_success (counting.post "admin" "correct horse" 0).1 ≡ true)
          × ((submit counting (filled, 0)).0.location ≡ "/login")
          × ((submit counting (filled, 0)).0.password ≡ "")
          × ((submit counting (filled, 0)).0.confirmation ≡ ""))
        ⊎ ((is_success (counting.post "admin" "correct horse" 0).1 ≡ false)
            × ((submit counting (filled, 0)).0.location ≡ filled.location)
            × ((submit counting (filled, 0)).0.password ≡ "correct horse")
            × ((submit counting (filled, 0)).0.confirmation ≡ "correct horse")
            × (truthy (submit counting (filled, 0)).0.error ≡ true)))
unfolding is_disabled blocker password_has_valid_byte_length
submit_is_answered_example = submit_is_answered counting filled 0 refl
