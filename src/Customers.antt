-- ===== src/Customers.antt =====
-- apps/server/src/modules/customers/handlers.ts: the customers of a café. The hash of a password is
-- argon2's and an argument, with `none` where no password is given.
use gaming_cafe_management.Prelude.{
  ℕ, ◌+◌, Bool, false, not, ◌&&◌, ◌||◌, [], ◌∷◌, ◌++◌, List, Option, none, some, ◌==◌, find?,
  filter, map, any, opt_eq, is_some, length, sum, String,
}
use gaming_cafe_management.Auth.{UserClaims}
use gaming_cafe_management.Auth.Services.{Services}
use gaming_cafe_management.Shared.{
  AuthMethod, problem, internal, contact_required, customer_exists, customer_not_found,
}
use gaming_cafe_management.World.Audit.{staff_audit}
use gaming_cafe_management.World.Devices.{CustomerRow}
use gaming_cafe_management.World.Action.{pure, gets, modify, require, check, ◌>>=◌, ◌>>◌}
use gaming_cafe_management.World.{World, M, write_audit}

pub record CreateCustomerInput : Type 0 where
  pub name : String
  pub email : Option ℕ
  pub phone : Option ℕ

abbrev auth_method_of : Option ℕ → AuthMethod
auth_method_of none = AuthMethod.none
auth_method_of (some hash) = AuthMethod.password

unfoldable pub new_customer :
    (new_id cafe_id : ℕ) → (password_hash : Option ℕ) → CreateCustomerInput → CustomerRow
new_customer new_id cafe_id password_hash input = record {
  id = new_id;
  cafe_id = cafe_id;
  phone = input.phone;
  email = input.email;
  name = input.name;
  auth_method = auth_method_of password_hash;
  password_hash = password_hash;
}

pub record PlayStats : Type 0 where
  pub total_sessions : ℕ
  pub total_minutes : ℕ

unfoldable pub play_stats : (id cafe_id : ℕ) → World → PlayStats
play_stats id cafe_id w =
    let rows = filter (λ s. opt_eq s.customer_id (some id) && s.cafe_id == cafe_id) w.sessions in
    record {
      total_sessions = length rows;
      total_minutes = sum (map (λ s. s.planned_minutes + s.extended_minutes) rows);
    }

unfoldable pub handle_get_customer : UserClaims → (id : ℕ) → M (CustomerRow × PlayStats)
unfolding play_stats
handle_get_customer user id = do
  rows ← gets (λ w. w.customers)
  customer ←
      require (problem 404 customer_not_found)
        (find? (λ c. c.id == id && c.cafe_id == user.cafe_id) rows)
  stats ← gets (play_stats id user.cafe_id)
  pure (customer, stats)

module _ (s : Services) where
  open s use {lower_case, db_lower}

  -- `lower(email) = …`, which a row with no address does not meet.
  abbrev pub has_email : (email : ℕ) → CustomerRow → Bool
  has_email email c = elim c.email [ none ↦ false | some e ↦ db_lower e == email ]

  -- A customer with the address, or with the number where no address is given.
  abbrev pub same_contact : CreateCustomerInput → CustomerRow → Bool
  same_contact input c = elim input.email [
    | none ↦ is_some input.phone && opt_eq c.phone input.phone
    | some email ↦ has_email (lower_case email) c
  ]

  -- The unique indexes `customers_cafe_email_uq` and `customers_cafe_phone_uq`.
  abbrev pub contact_clashes : CustomerRow → List CustomerRow → Bool
  contact_clashes row rows =
      any
        (λ c.
          c.cafe_id == row.cafe_id
          && ((is_some row.phone && opt_eq c.phone row.phone)
              || elim row.email [ none ↦ false | some e ↦ has_email (db_lower e) c ]))
        rows

  unfoldable pub insert_customer : CustomerRow → M (Unit {0})
  insert_customer row = do
    rows ← gets (λ w. w.customers)
    check (not (contact_clashes row rows)) (problem 500 internal)
    modify (λ w. record w { db = record (w.db) { customers = w.customers ++ row ∷ [] } })

  unfoldable pub handle_create_customer :
      (new_id : ℕ) → UserClaims → (password_hash : Option ℕ) → CreateCustomerInput → M CustomerRow
  unfolding new_customer insert_customer write_audit
  handle_create_customer new_id user password_hash input = do
    check (is_some input.email || is_some input.phone) (problem 400 contact_required)
    rows ← gets (λ w. w.customers)
    check (not (any (λ c. c.cafe_id == user.cafe_id && same_contact input c) rows))
        (problem 409 customer_exists)
    let customer = new_customer new_id user.cafe_id password_hash input
    insert_customer customer
    modify (write_audit (staff_audit user "CUSTOMER_CREATED" none ("customer", customer.id)))
    pure customer
