-- ===== src/Jobs/Policy.antt =====
-- apps/api/src/modules/jobs/domain/job-policy.ts: who may see, track, chat on and cancel a job. Of
-- the principal of apps/api/src/common/types/request-user.ts the fields that the policy reads are
-- modelled, of the permissions the five that it names.
use Prim.Native.String.{String}
use tamam.Jobs.Service.{JobRow}
use tamam.Prelude.{
  refl, Bool-cases, inl, inr, ◌≡◌, Bool, true, false, not, ◌&&◌, ◌||◌, Option, none, some, List,
  if◌then◌else◌, arith,
}
use tamam.Prelude.Data.{Eq, discrete_eq, ◌===◌}
use tamam.Prelude.Lists.{includes, any}
use tamam.Shared.Enums.{UserRole, JobActorType, user_role_eq, active_job_statuses, job_status_eq}
use tamam.Shared.Errors.{
  err-ok, ok-injective, ◌>>=◌, ◌>>◌, is_ok, Result, ok, err, throw_if, ◌>>◌, not_found_error,
}
use tamam.Shared.Text.{string_eq, has_text}

-- The permissions that the policy names.
pub data Permission : Type 0 where
  jobs_read_all jobs_cancel tracking_view_live_map support_read support_manage : Permission

instance abbrev pub permission_eq : Eq Permission
permission_eq = discrete_eq (hlevel)

-- `RequestUser`
pub record RequestUser : Type 0 where
  pub id : String
  pub roles : List UserRole
  pub permissions : List Permission
  pub partner_id : Option String
  pub customer_id : Option String
  pub is_super_admin : Bool

-- `optional === value`
abbrev pub names : Option String → String → Bool
names none value = false
names (some text) value = text === value

unfoldable pub is_customer : RequestUser → JobRow → Bool
is_customer user job = names user.customer_id job.customer_id || user.id === job.customer_id

-- `user.partnerId === partnerId || user.id === partnerId`
abbrev pub is_partner : RequestUser → Option String → Bool
is_partner user none = false
is_partner user (some partner) = names user.partner_id partner || user.id === partner

unfoldable pub is_assigned_partner : RequestUser → JobRow → Bool
is_assigned_partner user job = has_text job.partner_id && is_partner user job.partner_id

-- `r !== UserRole.CUSTOMER && r !== UserRole.PARTNER`
abbrev pub is_staff_role : UserRole → Bool
is_staff_role r = not (r === UserRole.customer) && not (r === UserRole.partner)

unfoldable pub is_staff : RequestUser → Bool
is_staff user = user.is_super_admin || any is_staff_role user.roles

-- The two parties of the job.
abbrev pub is_party : RequestUser → JobRow → Bool
is_party user job = is_customer user job || is_assigned_partner user job

unfoldable pub can_view : RequestUser → JobRow → Bool
can_view user job =
    if is_party user job
    then true
    else user.is_super_admin || includes user.permissions jobs_read_all

unfoldable pub can_track : RequestUser → JobRow → Bool
can_track user job =
    if is_party user job
    then true
    else user.is_super_admin || includes user.permissions tracking_view_live_map

unfoldable pub can_read_chat : RequestUser → JobRow → Bool
can_read_chat user job =
    if is_party user job
    then true
    else user.is_super_admin
      || (includes user.permissions jobs_read_all || includes user.permissions support_read)

unfoldable pub can_chat : RequestUser → JobRow → Bool
can_chat user job =
    if not (includes active_job_statuses job.status)
    then user.is_super_admin || includes user.permissions support_manage
    else is_customer user job
      || (is_assigned_partner user job
          || (includes user.permissions support_manage || user.is_super_admin))

unfoldable pub can_cancel : RequestUser → JobRow → Bool
can_cancel user job =
    is_customer user job
    || (is_assigned_partner user job
        || (user.is_super_admin || includes user.permissions jobs_cancel))

unfoldable pub actor_type_for : RequestUser → JobRow → JobActorType
actor_type_for user job =
    if is_staff user
    then JobActorType.admin
    else if is_assigned_partner user job
    then JobActorType.partner
    else JobActorType.customer

-- `getForUser` of apps/api/src/modules/jobs/jobs.service.ts: 404 to whoever may not view the job.
unfoldable pub get_for_user : Option JobRow → RequestUser → Result JobRow
get_for_user none user = err not_found_error
get_for_user (some job) user = do throw_if (not (can_view user job)) not_found_error; ok job

-- A call that fails on the job fails for whoever asks.
pub get_for_user-fails {ℓ} :
    {B : Type ℓ} (job : JobRow) (user : RequestUser) (next : JobRow → Result B)
    → is_ok (next job) ≡ false
    → is_ok (get_for_user (some job) user >>= next) ≡ false
unfolding get_for_user
get_for_user-fails job user next fails = elim (Bool-cases (can_view user job)) [
  | inl e ↦ rw e fails
  | inr e ↦ rw e refl
]

-- What the read returns is the job, to whoever may view it.
pub get_for_user-ok :
    (job seen : JobRow) (user : RequestUser)
    → get_for_user (some job) user ≡ ok seen
    → (can_view user job ≡ true) × (job ≡ seen)
unfolding get_for_user
get_for_user-ok job seen user h = elim (Bool-cases (can_view user job)) [
  | inl e ↦ (e, ok-injective _ _ (rw e at h))
  | inr e ↦ absurd (err-ok not_found_error seen (rw e at h))
]

posting_reads :
    (active customer partner manage super all read : Bool)
    → not manage || read ≡ true
    → (if not active then super || manage else customer || (partner || (manage || super))) ≡ true
    → (if customer || partner then true else super || (all || read)) ≡ true
posting_reads active customer partner manage super all read grants chats = ground arith

-- Whoever may post on a job's chat may read it, when the permission to manage support conversations
-- is only held together with the one to read them.
can_chat-can_read_chat :
    (user : RequestUser) (job : JobRow)
    → not (includes user.permissions support_manage) || includes user.permissions support_read
      ≡ true
    → can_chat user job ≡ true
    → can_read_chat user job ≡ true
unfolding can_chat can_read_chat
can_chat-can_read_chat user job grants chats =
    posting_reads (includes active_job_statuses job.status) (is_customer user job)
      (is_assigned_partner user job) (includes user.permissions support_manage) user.is_super_admin
      (includes user.permissions jobs_read_all) (includes user.permissions support_read) grants
      chats
