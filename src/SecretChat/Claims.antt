-- ===== src/SecretChat/Claims.antt =====
-- The key directory over publications and claims, with what has been handed out.
use sobhemessenger.Common.{ℕ, Bool, ◌&&◌, Uuid, List, [], ◌∷◌, ◌==◌, on_option}
use sobhemessenger.Httpx.{Fault, Result, ok, err}
use sobhemessenger.SecretChat.Store.{Directory, RepoError, KeyBundle}
use sobhemessenger.SecretChat.Keys.{PublishInput, publish, claim_bundle}

pub data KeyOp : Type 0 where
  publishing : ℕ → PublishInput → KeyOp
  claiming : Uuid → Uuid → KeyOp

-- The prekeys that were handed out, by device and key id.
pub record History : Type 0 where
  pub directory : Directory
  pub handed : List (Uuid × ℕ)

abbrev pub is_handed : Uuid → ℕ → Uuid × ℕ → Bool
is_handed device id (d, k) = d == device && k == id

abbrev pub published : Result Fault Directory → History → History
published (ok dir) h = record h { directory = dir }
published (err e) h = h

abbrev pub claimed : Result RepoError (KeyBundle × Directory) → History → History
claimed (ok (bundle, dir)) h = record {
  directory = dir;
  handed = on_option bundle.one_time_prekey h.handed (λ k. (bundle.device_id, k.key_id) ∷ h.handed);
}
claimed (err e) h = h

unfoldable pub run_key : KeyOp → History → History
unfolding publish claim_bundle
run_key (publishing now input) h = published (publish now input h.directory) h
run_key (claiming device by) h = claimed (claim_bundle device by h.directory) h

unfoldable pub run_keys : List KeyOp → History → History
unfolding run_key
run_keys [] h = h
run_keys (op ∷ ops) h = run_keys ops (run_key op h)
