-- ===== src/Can/Rx/Tests.antt =====
-- Runs and instances for pkg/can_smbus/src/core/io/cs_rx.c.
use rmm_2023_pre.Common.{◌≡◌, refl, List, [], ◌∷◌, arith, length}
use rmm_2023_pre.Can.Types.{user}
use rmm_2023_pre.Can.Callbacks.{Callback, list_call, list_close, list_add}
use rmm_2023_pre.Can.Rx.{Rx, initializer, reg, bind_reg, close_slot}
use rmm_2023_pre.Can.Rx.Receive.{receive_frame, reg_callback}
use rmm_2023_pre.Can.Rx.Listeners.{listeners}
use rmm_2023_pre.Can.Rx.Closing.{listeners-close_slot}
use rmm_2023_pre.Can.Rx.Dispatch.{write_frame}
use rmm_2023_pre.Can.Rx.Bindings.{
  Binding, at_reg, at_req_ack, at_brc, bind_all, bound_to, calls_to, receive-bind_all,
}
use rmm_2023_pre.Can.Rx.Register.{receive-bind_reg}

abbrev cb : Callback
cb = record { func = 0x100; args = 1 }

abbrev other : Callback
other = record { func = 0x200; args = 2 }

-- A gyro on gateway 1, register 3.
bound : Rx
unfolding bind_reg
bound = bind_reg (bind_reg initializer 1 0x042 3 cb user) 1 0x042 3 other user

calls-bound : length (receive_frame bound 1 (write_frame 0x042 3 user 2 (7 ∷ 8 ∷ 0 ∷ 0 ∷ []))) ≡ 2
unfolding receive_frame reg_callback list_call list_add initializer bound
calls-bound = refl

listeners-close_slot_example :
    listeners (close_slot bound 1 0x042 (reg user 3) cb) 1 0x042 (reg user 3)
    ≡ (list_close (listeners bound 1 0x042 (reg user 3)) cb).0
listeners-close_slot_example =
    listeners-close_slot bound 1 0x042 (reg user 3) cb 1 0x042 (reg user 3) (omega arith)

-- Two callbacks for one register among registrations for other places.
abbrev bindings : List Binding
bindings =
    at_reg 1 0x042 3 user cb
    ∷ at_req_ack 1 0x042 user other
    ∷ at_reg 0 0x042 3 user other
    ∷ at_brc 1 3 cb
    ∷ at_reg 1 0x042 3 user other
    ∷ at_reg 1 0x042 16 user cb
    ∷ []

receive-bind_all_example :
    receive_frame
      (bind_all initializer bindings)
      1
      (write_frame 0x042 3 user 2 (7 ∷ 8 ∷ 0 ∷ 0 ∷ []))
    ≡ calls_to (bound_to 1 0x042 3 user bindings) 0x042 3 2 (7 ∷ 8 ∷ 0 ∷ 0 ∷ [])
receive-bind_all_example =
    receive-bind_all bindings 1 0x042 3 2 (7 ∷ 8 ∷ 0 ∷ 0 ∷ []) user (omega arith) (omega arith)
      (omega arith) (omega arith, (omega arith, (omega arith, (omega arith, tt))))

-- It is the first and the fifth of them that are called for.
bound_to-bindings : bound_to 1 0x042 3 user bindings ≡ cb ∷ other ∷ []
unfolding bound_to
bound_to-bindings = refl

receive-bind_reg_example :
    receive_frame (bind_reg bound 1 0x042 3 cb user) 1 (write_frame 0x042 4 user 0 [])
    ≡ receive_frame bound 1 (write_frame 0x042 4 user 0 [])
receive-bind_reg_example =
    receive-bind_reg bound 1 0x042 3 cb user 1 0x042 4 0 [] user (omega arith) (omega arith)
      (omega arith) (omega arith) (omega arith) (omega arith)
