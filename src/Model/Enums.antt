-- ===== src/Model/Enums.antt =====
-- The enumerations of src/DataModelDef.h.

pub data OrderType : Type 0 where
  invalid_ordertype market limit stop stoplimit : OrderType

pub data ExecType : Type 0 where
  invalid_exectype new_exec trade_exec dfd_exec correct_exec cancel_exec reject_exec replace_exec
        expired_exec suspended_exec status_exec restated_exec pend_cancel_exec pend_replace_exec :
      ExecType

pub data Currency : Type 0 where
  invalid_currency usd eur : Currency

pub data Capacity : Type 0 where
  invalid_capacity agency principal proprietary individual riskless_principal
        agent_for_another_member :
      Capacity

pub data TimeInForce : Type 0 where
  invalid_tif day gtd gtc fok ioc opg atclose : TimeInForce

pub data Side : Type 0 where
  invalid_side buy sell buy_minus sell_plus sell_short cross : Side

pub data SettlType : Type 0 where
  invalid_settltype settl_0 settl_1 settl_2 settl_3 settl_4 settl_5 settl_6 settl_7 settl_8 settl_9
        settl_b settl_c tenor :
      SettlType

pub data OrderStatus : Type 0 where
  invalid_status received_new rejected_status pending_new pending_replace new_status part_fill
        filled_status expired_status dfd_status suspended_status replaced_status canceled_status :
      OrderStatus

pub data AccountType : Type 0 where
  invalid_accounttype principal_account agency_account : AccountType
