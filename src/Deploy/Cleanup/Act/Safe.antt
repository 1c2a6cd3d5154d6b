-- ===== src/Deploy/Cleanup/Act/Safe.antt =====
-- What a cleanup has changed when it ends.
use routevane.Common.{All, ◌⊎◌, ◌≡◌, true, false, List, [], ◌++◌, all, map}
use routevane.Deploy.Delivery.{found}
use routevane.Common.Text.{Text}
use routevane.Domain.Names.{is_empty}
use routevane.Deploy.Cleanup.{DeviceObjects, History, DeviceCleanupConfig, CleanupEntry}
use routevane.Deploy.Cleanup.Act.{Planned, PlannedAll, no_login, planned, Cleanup}
use routevane.Deploy.Cleanup.Act.Rounds.{reads_only, is_cleaned, Previews, Removals}

-- A planned removal signs in with the address and the account of its entry's device, and where the
-- device wants a password with the stored one, which is not empty.
pub record Ready (w : DeviceCleanupConfig) (p : Planned) : Type 0 where
  pub address : p.connection.url ≡ p.entry.device.address
  pub account : p.connection.username ≡ p.entry.device.account
  pub interface : p.connection.interface_name ≡ p.entry.device.interface_name
  pub password :
      (p.entry.needs_credential ≡ false)
      ⊎ ((w.credential p.entry.device.id ≡ found p.connection.password)
          × (is_empty p.connection.password ≡ false))

-- The plan of a list of entries is one removal for each.
data PlanOf (w : DeviceCleanupConfig) (entries : List CleanupEntry) : PlannedAll → Type 0 where
  refused_login : (o : DeviceObjects) → PlanOf w entries (no_login o)
  one_each :
      (ps : List Planned)
      → map (λ p. p.entry) ps ≡ entries
      → All (Ready w) ps
      → PlanOf w entries (planned ps)

-- A cleanup that has made no attempt has only read; one that has was ready for every surface before.
pub data Safe (w : DeviceCleanupConfig) (entries : List CleanupEntry) (c : Cleanup) : Type 0 where
  only_read :
      c.attempts ≡ []
      → all reads_only c.history ≡ true
      → is_cleaned c.outcome ≡ false
      → Safe w entries c
  after_asking :
      (ps : List Planned) (asked removals : History)
      → All (λ e. e.objects.cleanable ≡ true) entries
      → map (λ p. p.entry) ps ≡ entries
      → All (Ready w) ps
      → Previews w [] ps asked
      → all reads_only asked ≡ true
      → c.history ≡ removals ++ asked
      → (is_cleaned c.outcome ≡ false) ⊎ Removals w asked ps c.history c.attempts
      → Safe w entries c
