-- ===== src/Filters/Entries.antt =====
-- The filters of instruments, accounts and clearing entries in src/EntryFilter.cpp.
use order_processor.Common.{Bool, true, ◌&&◌, Option, none, some, List, [], ◌∷◌}
use order_processor.Model.Enums.{AccountType}
use order_processor.Model.Order.{Text, Instrument, Account, Clearing}
use order_processor.Filters.Values.{
  EnumFilter, filter_enum, StringFilter, filter_string, get_string, IdFilter, match_id, get_id_val,
}

-- The subclasses of `InstrumentElementFilter`, `AccountElementFilter` and `ClearingElementFilter`
pub data InstrumentElement : Type 0 where
  instrument_id : IdFilter → InstrumentElement
  symbol security_id security_id_source : StringFilter → InstrumentElement

pub data AccountElement : Type 0 where
  account_id : IdFilter → AccountElement
  account_name account_firm : StringFilter → AccountElement
  account_type : EnumFilter AccountType → AccountElement

pub data ClearingElement : Type 0 where
  clearing_id : IdFilter → ClearingElement
  clearing_firm : StringFilter → ClearingElement

pub AccountType-discrete : Discrete AccountType
AccountType-discrete = hlevel

module _ (regex_match : Text → Text → Bool) where
  unfoldable pub match_instrument_element : InstrumentElement → Instrument → Bool
  unfolding match_id filter_string
  match_instrument_element (instrument_id f) i = match_id f i.id
  match_instrument_element (symbol f) i = filter_string regex_match f i.symbol
  match_instrument_element (security_id f) i = filter_string regex_match f i.security_id
  match_instrument_element (security_id_source f) i =
      filter_string regex_match f i.security_id_source

  unfoldable pub match_account_element : AccountElement → Account → Bool
  unfolding match_id filter_string filter_enum
  match_account_element (account_id f) a = match_id f a.id
  match_account_element (account_name f) a = filter_string regex_match f a.account
  match_account_element (account_firm f) a = filter_string regex_match f a.firm
  match_account_element (account_type f) a = filter_enum AccountType-discrete f a.type

  unfoldable pub match_clearing_element : ClearingElement → Clearing → Bool
  unfolding match_id filter_string
  match_clearing_element (clearing_id f) c = match_id f c.id
  match_clearing_element (clearing_firm f) c = filter_string regex_match f c.firm

  -- `match` of `InstrumentFilter`, `AccountFilter` and `ClearingFilter`. A filter without elements
  -- matches.
  unfoldable pub match_instrument : List InstrumentElement → Instrument → Bool
  unfolding match_instrument_element
  match_instrument [] i = true
  match_instrument (f ∷ fs) i =
      let rest = match_instrument fs i in match_instrument_element f i && rest

  unfoldable pub match_account : List AccountElement → Account → Bool
  unfolding match_account_element
  match_account [] a = true
  match_account (f ∷ fs) a = let rest = match_account fs a in match_account_element f a && rest

  unfoldable pub match_clearing : List ClearingElement → Clearing → Bool
  unfolding match_clearing_element
  match_clearing [] c = true
  match_clearing (f ∷ fs) c = let rest = match_clearing fs c in match_clearing_element f c && rest

-- An `InstrumentEntry` without values.
abbrev pub no_instrument : Instrument
no_instrument = record { symbol = []; security_id = []; security_id_source = []; id = 0 }

abbrev pub set_with {ℓ κ} : {A : Type ℓ} {B : Type κ} → (A → B) → Option A → Option B
set_with f none = none
set_with f (some a) = some (f a)

-- `getInstrumentEntry`. What it has written by the time it returns `false` is not used.
unfoldable pub get_element_entry : InstrumentElement → Instrument → Option Instrument
unfolding get_string get_id_val
get_element_entry (instrument_id f) i = set_with (λ k. record i { id = k }) (get_id_val f i.id)
get_element_entry (symbol f) i = set_with (λ t. record i { symbol = t }) (get_string f)
get_element_entry (security_id f) i = set_with (λ t. record i { security_id = t }) (get_string f)
get_element_entry (security_id_source f) i =
    set_with (λ t. record i { security_id_source = t }) (get_string f)

unfoldable pub get_entries : List InstrumentElement → Instrument → Option Instrument
unfolding get_element_entry
get_entries [] i = some i
get_entries (f ∷ fs) i = elim (get_element_entry f i) [ none ↦ none | some j ↦ get_entries fs j ]

unfoldable pub get_instrument_entry : List InstrumentElement → Instrument → Option Instrument
unfolding get_entries
get_instrument_entry [] i = none
get_instrument_entry (f ∷ fs) i = get_entries (f ∷ fs) i
