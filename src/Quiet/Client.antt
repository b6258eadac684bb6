-- ===== src/Quiet/Client.antt =====
-- internal/application/start.go: the client id that normalizeStartInput draws for a request without
-- one, when every call succeeds and no one interferes.
use Prim.Native.String.{len}
use ofm_registration_saga_se.Prelude.{
  true, false, ◌≡◌, refl, ap, subst, ◌==◌, if◌then◌else◌, if_cases, suc, ltb,
}
use ofm_registration_saga_se.Prelude.Text.{trim_space}
use ofm_registration_saga_se.Domain.{StartRegistrationParams}
use ofm_registration_saga_se.Exec.{handle, resume, pure, raise, ◌>>=◌}
use ofm_registration_saga_se.World.{Env, World, StartInput, draw}
use ofm_registration_saga_se.Application.Start.{
  trimmed, or_uuid, normalize_start_input, lookup_start_conflict, unless_conflict, start,
}
use ofm_registration_saga_se.Quiet.Start.{IsAcceptable}

-- The request with its client's id, and the world after that id was drawn, where it is blank.
abbrev pub with_client : Env → StartRegistrationParams → World → StartRegistrationParams × World
with_client env params w =
    if trim_space params.client_id == ""
    then (record params { client_id = env.uuid w.calls }, record w { calls = suc w.calls })
    else (params, w)

normalize-with_client :
    (env : Env) (params : StartRegistrationParams) (w : World)
    → trim_space (env.uuid w.calls) ≡ env.uuid w.calls
    → IsAcceptable env (trimmed (with_client env params w).0)
    → normalize_start_input env params w
      ≡ normalize_start_input env (with_client env params w).0 (with_client env params w).1
unfolding normalize_start_input or_uuid draw trimmed ◌>>=◌ handle resume pure raise
normalize-with_client env params w printed =
    if_cases
      (λ (x : StartRegistrationParams × World).
        IsAcceptable env (trimmed x.0)
        → normalize_start_input env params w ≡ normalize_start_input env x.0 x.1)
      (trim_space params.client_id == "")
      (λ blank ok_input.
        let parsed : env.parses_address (trim_space params.email) ≡ true = ok_input.parsed in
        let named : (trim_space params.username == "") ≡ false = ok_input.named in
        let long : ltb (len (trim_space params.password)) 8 ≡ false = ok_input.long in
        let drawn : (env.uuid w.calls == "") ≡ false =
          subst (λ id. (id == "") ≡ false) printed ok_input.of_client in
        simp (parsed, named, long, blank, printed, drawn))
      (λ _ ok_input. refl)

-- A request without a client's id is served as the one with the id that is drawn for it.
pub start-with_client :
    (env : Env) (params : StartRegistrationParams) (w : World)
    → trim_space (env.uuid w.calls) ≡ env.uuid w.calls
    → IsAcceptable env (trimmed (with_client env params w).0)
    → start env params w ≡ start env (with_client env params w).0 (with_client env params w).1
unfolding start ◌>>=◌ handle
start-with_client env params w printed ok_input =
    let looked_up = λ (input : StartInput).
      lookup_start_conflict env input.email input.username >>= λ c. unless_conflict env c input in
    ap (λ x. resume x.0 raise looked_up x.1) (normalize-with_client env params w printed ok_input)
