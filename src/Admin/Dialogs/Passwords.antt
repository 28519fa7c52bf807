-- ===== src/Admin/Dialogs/Passwords.antt =====
-- A user keeps the password that nobody typed anew.
use integr8s_code.Base.{ℕ, ◌≡◌, refl, true, Option, none, some, [], ◌∷◌, Text}
use integr8s_code.Admin.Dialogs.{
  User, edit, UserForm, UserUpdate, update_user, Rule, password_rule, optional_text, initial_form,
  update_of, on_update,
}

-- What the API makes of a user for an update, and of the user's password.
abbrev pub updated : {R : Type 0} → UserUpdate R → User R → User R
updated u user = record user {
  username = u.username;
  email = u.email;
  role = u.role;
  is_active = u.is_active;
}

abbrev pub kept_password : Option Text → Text → Text
kept_password none old = old
kept_password (some new) old = new

-- The dialog for a user, submitted as it was opened, sends an update that changes neither the user
-- nor the password, and its password is valid whatever the API's rule; and a password that was typed
-- is sent, by the API's rule.
on_update-initial_form :
    {R : Type 0} (rule : Rule) (defaults : UserForm R) (user : User R) (c : ℕ) (typed old : Text)
    → let mode = edit user in
      let f = initial_form defaults mode in
      let g = record f { password = c ∷ typed } in
      (on_update mode true f ≡ update_user user.user_id (update_of f) ∷ [])
      × (updated (update_of f) user ≡ user)
      × (kept_password (update_of f).password old ≡ old)
      × (password_rule rule mode f.password ≡ true)
      × (kept_password (update_of g).password old ≡ c ∷ typed)
      × (password_rule rule mode (c ∷ typed) ≡ rule (c ∷ typed))
unfolding on_update update_of initial_form password_rule optional_text
on_update-initial_form rule defaults user c typed old = (refl, refl, refl, refl, refl, refl)
