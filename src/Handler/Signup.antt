-- ===== src/Handler/Signup.antt =====
-- The checks of a form in src/handler/signup.c. What `accountCheckEmail` and `accountCheckUsername` say
-- of the database is given.
use facebooc.Base.{
  ◌≡◌, refl, Bool, true, false, not, ◌||◌, none, some, List, [], ◌∷◌, ◌++◌, ◌≤◌, arith, Bytes,
  codes, ltb, if◌then◌else◌, strchr, streq, ◌==◌,
}
use facebooc.BasicString.{BasicString}

-- What a check sets in the template, and whether it sets `valid`.
pub record Check : Type 0 where
  pub key : Bytes
  pub value : Bytes
  pub passed : Bool

pub record Form : Type 0 where
  pub name : BasicString
  pub email : BasicString
  pub username : BasicString
  pub password : BasicString
  pub confirm_password : BasicString

unfoldable pub check_name : BasicString → Check
check_name name =
    if name.size == 0
    then record {
      key = codes "nameError";
      value = codes "You must enter your name!";
      passed = false;
    }
    else if ltb name.size 5 || ltb 50 name.size
    then record {
      key = codes "nameError";
      value = codes "Your name must be between 5 and 50 characters long.";
      passed = false;
    }
    else record { key = codes "formName"; value = name.bytes; passed = true }

has_at : Bytes → Bool
has_at s = elim (strchr s b'@') [ none ↦ false | some n ↦ true ]

-- The last argument is the answer of `accountCheckEmail`.
unfoldable pub check_email : BasicString → Bool → Check
unfolding has_at
check_email email free =
    if email.size == 0
    then record {
      key = codes "emailError";
      value = codes "You must enter an email!";
      passed = false;
    }
    else if not (has_at email.bytes)
    then record { key = codes "emailError"; value = codes "Invalid email."; passed = false }
    else if ltb email.size 3 || ltb 50 email.size
    then record {
      key = codes "emailError";
      value = codes "Your email must be between 3 and 50 characters long.";
      passed = false;
    }
    else if not free
    then record { key = codes "emailError"; value = codes "This email is taken."; passed = false }
    else record { key = codes "formEmail"; value = email.bytes; passed = true }

-- The last argument is the answer of `accountCheckUsername`.
unfoldable pub check_username : BasicString → Bool → Check
check_username username free =
    if username.size == 0
    then record {
      key = codes "usernameError";
      value = codes "You must enter a username!";
      passed = false;
    }
    else if ltb username.size 3 || ltb 50 username.size
    then record {
      key = codes "usernameError";
      value = codes "Your username must be between 3 and 50 characters long.";
      passed = false;
    }
    else if not free
    then record {
      key = codes "usernameError";
      value = codes "This username is taken.";
      passed = false;
    }
    else record { key = codes "formUsername"; value = username.bytes; passed = true }

-- A password that passes sets nothing in the template: the key is empty.
unfoldable pub check_password : BasicString → Check
check_password password =
    if password.size == 0
    then record {
      key = codes "passwordError";
      value = codes "You must enter a password!";
      passed = false;
    }
    else if ltb password.size 8
    then record {
      key = codes "passwordError";
      value = codes "Your password must be at least 8 characters long!";
      passed = false;
    }
    else record { key = []; value = []; passed = true }

unfoldable pub check_confirm : BasicString → BasicString → Check
check_confirm password confirm =
    if confirm.size == 0
    then record {
      key = codes "confirmPasswordError";
      value = codes "You must confirm your password.";
      passed = false;
    }
    else if not (streq password.bytes confirm.bytes)
    then record {
      key = codes "confirmPasswordError";
      value = codes "The two passwords must be the same.";
      passed = false;
    }
    else record { key = []; value = []; passed = true }

-- The five checks in the order of `signup`.
unfoldable pub checks : Form → Bool → Bool → List Check
checks form email_free username_free =
    check_name form.name
    ∷ check_email form.email email_free
    ∷ check_username form.username username_free
    ∷ check_password form.password
    ∷ check_confirm form.password form.confirm_password
    ∷ []

-- The variable `valid` after the checks: each that passes sets it, and none resets it.
unfoldable pub valid_after : Bool → List Check → Bool
valid_after valid [] = valid
valid_after valid (c ∷ cs) = valid_after (if c.passed then true else valid) cs

-- An account is created when `valid` is set.
unfoldable pub registers : Form → Bool → Bool → Bool
registers form email_free username_free = valid_after false (checks form email_free username_free)

valid_after-true : (cs : List Check) → valid_after true cs ≡ true
unfolding valid_after
valid_after-true [] = refl
valid_after-true (c ∷ cs) = ground (arith, valid_after-true cs)

-- One check that passes decides, whatever the others say.
valid_after-passed :
    (before after : List Check) (c : Check) (valid : Bool)
    → c.passed ≡ true
    → valid_after valid (before ++ c ∷ after) ≡ true
unfolding valid_after
valid_after-passed [] after c valid h = rw h (valid_after-true after)
valid_after-passed (b ∷ before) after c valid h =
    valid_after-passed before after c (if b.passed then true else valid) h

check_password-long :
    (password : BasicString) → 8 ≤ password.size → (check_password password).passed ≡ true
unfolding check_password
check_password-long password long =
    let some_byte : (password.size == 0) ≡ false = ground arith in
    let enough : ltb password.size 8 ≡ false = ground arith in rw (some_byte, enough) refl

-- A password of eight bytes or more sets `valid`, whatever the other checks say.
pub registers-password :
    (form : Form) (email_free username_free : Bool)
    → 8 ≤ form.password.size
    → registers form email_free username_free ≡ true
unfolding registers checks
registers-password form email_free username_free long =
    valid_after-passed
      (check_name form.name
        ∷ check_email form.email email_free
        ∷ check_username form.username username_free
        ∷ [])
      (check_confirm form.password form.confirm_password ∷ []) (check_password form.password) false
      (check_password-long form.password long)
