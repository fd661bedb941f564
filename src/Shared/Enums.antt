-- ===== src/Shared/Enums.antt =====
-- packages/shared-types/src/enums.ts: the enumerations that the modelled code reads, each with
-- the equality that `===` decides.
use tamam.Prelude.{List, [], ◌∷◌}
use tamam.Prelude.Data.{Eq, discrete_eq}

pub data UserRole : Type 0 where
  customer partner admin support dispatcher finance operations_manager : UserRole
  marketing analyst super_admin : UserRole

pub data JobType : Type 0 where
  ride delivery home_service food grocery pharmacy shopping moving road_assistance : JobType

pub data JobStatus : Type 0 where
  draft requested searching assigned partner_en_route partner_arrived waiting_customer : JobStatus
  in_progress inspection_started quote_required quote_submitted quote_approved : JobStatus
  quote_rejected work_started waiting_for_parts work_completed customer_confirmed : JobStatus
  completed cancelled no_partner_available disputed : JobStatus

pub data JobActorType : Type 0 where
  customer partner admin system : JobActorType

pub data JobUrgency : Type 0 where
  standard urgent emergency : JobUrgency

pub data PaymentMethod : Type 0 where
  cash wallet card bank external_gateway : PaymentMethod

pub data LedgerAccountType : Type 0 where
  customer_wallet partner_wallet platform_revenue platform_cash_clearing : LedgerAccountType
  platform_gateway_clearing platform_promo_expense platform_refund_expense : LedgerAccountType
  platform_payables : LedgerAccountType

pub data LedgerEntryDirection : Type 0 where
  debit credit : LedgerEntryDirection

pub data LedgerTransactionType : Type 0 where
  job_charge job_commission partner_earning cash_collected : LedgerTransactionType
  wallet_topup wallet_withdrawal refund promo_discount : LedgerTransactionType
  referral_reward cancellation_fee bonus manual_adjustment : LedgerTransactionType
  dispute_settlement : LedgerTransactionType

pub data PromoType : Type 0 where
  percentage fixed_amount : PromoType

pub data TicketCategory : Type 0 where
  payment job_issue partner_behaviour customer_behaviour lost_item : TicketCategory
  account safety other : TicketCategory

pub data TicketPriority : Type 0 where
  low normal high critical : TicketPriority

pub data TicketStatus : Type 0 where
  opened in_progress waiting_user resolved closed : TicketStatus

pub data DisputeStatus : Type 0 where
  opened under_review resolved_customer resolved_partner resolved_split rejected : DisputeStatus

pub data RiskSignal : Type 0 where
  excessive_cancellations promo_abuse multiple_accounts : RiskSignal
  impossible_gps_movement repeated_failed_payments unusual_referral_behaviour : RiskSignal

pub data QuoteStatus : Type 0 where
  draft submitted approved rejected superseded cancelled : QuoteStatus

pub data QuoteKind : Type 0 where
  initial change_order : QuoteKind

pub data ChaletBookingStatus : Type 0 where
  draft held awaiting_payment confirmed check_in_ready checked_in : ChaletBookingStatus
  in_progress checked_out cleaning completed cancelled expired : ChaletBookingStatus
  no_show disputed : ChaletBookingStatus

pub data ChaletBookingSource : Type 0 where
  tamam_app owner_manual admin : ChaletBookingSource

instance abbrev pub user_role_eq : Eq UserRole
user_role_eq = discrete_eq (hlevel)

instance abbrev pub job_type_eq : Eq JobType
job_type_eq = discrete_eq (hlevel)

instance abbrev pub job_status_eq : Eq JobStatus
job_status_eq = discrete_eq (hlevel)

instance abbrev pub job_actor_eq : Eq JobActorType
job_actor_eq = discrete_eq (hlevel)

instance abbrev pub payment_method_eq : Eq PaymentMethod
payment_method_eq = discrete_eq (hlevel)

instance abbrev pub promo_type_eq : Eq PromoType
promo_type_eq = discrete_eq (hlevel)

instance abbrev pub direction_eq : Eq LedgerEntryDirection
direction_eq = discrete_eq (hlevel)

instance abbrev pub ticket_status_eq : Eq TicketStatus
ticket_status_eq = discrete_eq (hlevel)

instance abbrev pub ticket_category_eq : Eq TicketCategory
ticket_category_eq = discrete_eq (hlevel)

instance abbrev pub risk_signal_eq : Eq RiskSignal
risk_signal_eq = discrete_eq (hlevel)

instance abbrev pub dispute_status_eq : Eq DisputeStatus
dispute_status_eq = discrete_eq (hlevel)

instance abbrev pub quote_status_eq : Eq QuoteStatus
quote_status_eq = discrete_eq (hlevel)

instance abbrev pub booking_status_eq : Eq ChaletBookingStatus
booking_status_eq = discrete_eq (hlevel)

-- `TERMINAL_JOB_STATUSES`
abbrev pub terminal_job_statuses : List JobStatus
terminal_job_statuses =
    JobStatus.completed ∷ JobStatus.cancelled ∷ JobStatus.no_partner_available ∷ []

-- `ACTIVE_JOB_STATUSES`
abbrev pub active_job_statuses : List JobStatus
active_job_statuses =
    JobStatus.requested ∷ JobStatus.searching ∷ JobStatus.assigned ∷ JobStatus.partner_en_route
    ∷ JobStatus.partner_arrived ∷ JobStatus.waiting_customer ∷ JobStatus.in_progress
    ∷ JobStatus.inspection_started ∷ JobStatus.quote_required ∷ JobStatus.quote_submitted
    ∷ JobStatus.quote_approved ∷ JobStatus.quote_rejected ∷ JobStatus.work_started
    ∷ JobStatus.waiting_for_parts ∷ JobStatus.work_completed ∷ JobStatus.customer_confirmed ∷ []
