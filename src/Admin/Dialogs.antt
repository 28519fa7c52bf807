-- ===== src/Admin/Dialogs.antt =====
-- The dialogs that create, edit and delete a user: the scripts of
-- frontend/src/components/admin/users/UserFormModal.svelte and DeleteUserModal.svelte. `R` is the type
-- of roles; the form library keeps the form and tells whether it is valid.
pub mod Passwords
use integr8s_code.Base.{
  Bool, true, false, Option, none, some, List, [], ◌∷◌, if◌then◌else◌, Text, is_empty,
}

pub record User (R : Type 0) : Type 0 where
  pub user_id : Text
  pub username : Text
  pub email : Text
  pub role : R
  pub is_active : Bool

pub data Mode (R : Type 0) : Type 0 where
  create : Mode R
  edit : User R → Mode R

-- The form's data, and the body of a creation.
pub record UserForm (R : Type 0) : Type 0 where
  pub username : Text
  pub email : Text
  pub password : Text
  pub role : R
  pub is_active : Bool

-- The body of an update; a password that is `none` is not in it.
pub record UserUpdate (R : Type 0) : Type 0 where
  pub username : Text
  pub email : Text
  pub role : R
  pub is_active : Bool
  pub password : Option Text

pub data Effect (R : Type 0) : Type 0 where
  create_user : UserForm R → Effect R
  update_user : (user_id : Text) → UserUpdate R → Effect R
  delete_user : (user_id : Text) → (cascade : Bool) → Effect R
  close refresh_users : Effect R

-- The schemas: `password` is the API's rule for a new user's password.
abbrev pub Rule : Type 0
Rule = Text → Bool

unfoldable pub optional_text : Rule → Rule
optional_text rule s = if is_empty s then true else rule s

unfoldable pub filled : Rule → Rule
filled rule s = if is_empty s then false else rule s

module _ {R : Type 0} where
  unfoldable pub password_rule : Rule → Mode R → Rule
  unfolding optional_text
  password_rule password create = password
  password_rule password (edit user) = optional_text password

  -- What the form begins with; `defaults` are the schema's.
  unfoldable pub initial_form : (defaults : UserForm R) → Mode R → UserForm R
  initial_form defaults create = defaults
  initial_form defaults (edit user) = record {
    username = user.username;
    email = user.email;
    password = [];
    role = user.role;
    is_active = user.is_active;
  }

  unfoldable pub update_of : UserForm R → UserUpdate R
  update_of f = record {
    username = f.username;
    email = f.email;
    role = f.role;
    is_active = f.is_active;
    password = if is_empty f.password then none else some f.password;
  }

  unfoldable pub on_update : Mode R → (valid : Bool) → UserForm R → List (Effect R)
  unfolding update_of
  on_update mode false f = []
  on_update create true f = create_user f ∷ []
  on_update (edit user) true f = update_user user.user_id (update_of f) ∷ []

  abbrev pub on_saved : List (Effect R)
  on_saved = close ∷ refresh_users ∷ []

  -- The button of the dialog that deletes is disabled while a deletion is under way.
  unfoldable pub delete_clicked : User R → (cascade is_pending : Bool) → List (Effect R)
  delete_clicked user cascade is_pending =
      if is_pending then [] else delete_user user.user_id cascade ∷ []
