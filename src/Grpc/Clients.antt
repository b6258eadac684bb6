-- ===== src/Grpc/Clients.antt =====
-- auth_client.go and user_client.go: the calls of the auth and user services. The generated clients
-- are parameters, with a response that is there where the call succeeds.
use ofm_registration_saga_se.Prelude.{String, Bool, Option, none, some}
use ofm_registration_saga_se.Exec.{Exec, pure, ◌>>=◌}

-- authv1.AuthQueryServiceClient and the connection; the first result is GetExists.
pub record AuthQueryService (S : Type 0) : Type 0 where
  pub exists_by_email : String → Exec S Bool
  pub verify_registration_email : String → String → Exec S (Unit {0})
  pub deactivate_registration_auth : String → Exec S (Unit {0})

-- userv1.UserQueryServiceClient
pub record UserQueryService (S : Type 0) : Type 0 where
  pub exists_by_username : String → Exec S Bool
  pub activate_user : String → Exec S (Unit {0})
  pub deactivate_user : String → Exec S (Unit {0})

module _ {S : Type 0} (cl : AuthQueryService S) where
  unfoldable pub exists_by_email : String → Exec S Bool
  exists_by_email email = do response ← cl.exists_by_email email; pure response

  unfoldable pub verify_registration_email : String → String → Exec S (Unit {0})
  verify_registration_email user_id code = cl.verify_registration_email user_id code

  unfoldable pub deactivate_registration_auth : String → Exec S (Unit {0})
  deactivate_registration_auth user_id = cl.deactivate_registration_auth user_id

module _ {S : Type 0} (cl : UserQueryService S) where
  unfoldable pub exists_by_username : String → Exec S Bool
  exists_by_username username = do response ← cl.exists_by_username username; pure response

  unfoldable pub activate_user : String → Exec S (Unit {0})
  activate_user user_id = cl.activate_user user_id

  unfoldable pub deactivate_user : String → Exec S (Unit {0})
  deactivate_user user_id = cl.deactivate_user user_id

-- Close: nothing for a nil client or a nil connection.
unfoldable pub close_client : {S : Type 0} → Option (Exec S (Unit {0})) → Exec S (Unit {0})
close_client none = pure tt
close_client (some close) = close
