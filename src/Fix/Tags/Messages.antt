-- ===== src/Fix/Tags/Messages.antt =====
-- The table MSGTYPE_LIST (common/MsgType.hpp).
use fast_little_market.Common.{List, ◌∷◌, []}
use fast_little_market.Fix.Tags.Table.{Label, label}

abbrev pub msg_type_list : List Label
msg_type_list =
    label "Heartbeat" "0"
    ∷ label "TestRequest" "1"
    ∷ label "ResendRequest" "2"
    ∷ label "Reject" "3"
    ∷ label "SequenceReset" "4"
    ∷ label "Logout" "5"
    ∷ label "IOI" "6"
    ∷ label "Advertisement" "7"
    ∷ label "ExecutionReport" "8"
    ∷ label "OrderCancelReject" "9"
    ∷ label "QuoteStatusRequest" "a"
    ∷ label "Logon" "A"
    ∷ label "DerivativeSecurityList" "AA"
    ∷ label "NewOrderMultileg" "AB"
    ∷ label "MultilegOrderCancelReplace" "AC"
    ∷ label "TradeCaptureReportRequest" "AD"
    ∷ label "TradeCaptureReport" "AE"
    ∷ label "OrderMassStatusRequest" "AF"
    ∷ label "QuoteRequestReject" "AG"
    ∷ label "RFQRequest" "AH"
    ∷ label "QuoteStatusReport" "AI"
    ∷ label "QuoteResponse" "AJ"
    ∷ label "Confirmation" "AK"
    ∷ label "PositionMaintenanceRequest" "AL"
    ∷ label "PositionMaintenanceReport" "AM"
    ∷ label "RequestForPositions" "AN"
    ∷ label "RequestForPositionsAck" "AO"
    ∷ label "PositionReport" "AP"
    ∷ label "TradeCaptureReportRequestAck" "AQ"
    ∷ label "TradeCaptureReportAck" "AR"
    ∷ label "AllocationReport" "AS"
    ∷ label "AllocationReportAck" "AT"
    ∷ label "ConfirmationAck" "AU"
    ∷ label "SettlementInstructionRequest" "AV"
    ∷ label "AssignmentReport" "AW"
    ∷ label "CollateralRequest" "AX"
    ∷ label "CollateralAssignment" "AY"
    ∷ label "CollateralResponse" "AZ"
    ∷ label "MassQuoteAcknowledgement" "b"
    ∷ label "News" "B"
    ∷ label "CollateralReport" "BA"
    ∷ label "CollateralInquiry" "BB"
    ∷ label "NetworkCounterpartySystemStatusRequest" "BC"
    ∷ label "NetworkCounterpartySystemStatusResponse" "BD"
    ∷ label "UserRequest" "BE"
    ∷ label "UserResponse" "BF"
    ∷ label "CollateralInquiryAck" "BG"
    ∷ label "ConfirmationRequest" "BH"
    ∷ label "TradingSessionListRequest" "BI"
    ∷ label "TradingSessionList" "BJ"
    ∷ label "SecurityListUpdateReport" "BK"
    ∷ label "AdjustedPositionReport" "BL"
    ∷ label "AllocationInstructionAlert" "BM"
    ∷ label "ExecutionAcknowledgement" "BN"
    ∷ label "ContraryIntentionReport" "BO"
    ∷ label "SecurityDefinitionUpdateReport" "BP"
    ∷ label "SecurityDefinitionRequest" "c"
    ∷ label "Email" "C"
    ∷ label "SecurityDefinition" "d"
    ∷ label "NewOrderSingle" "D"
    ∷ label "SecurityStatusRequest" "e"
    ∷ label "NewOrderList" "E"
    ∷ label "SecurityStatus" "f"
    ∷ label "OrderCancelRequest" "F"
    ∷ label "TradingSessionStatusRequest" "g"
    ∷ label "OrderCancelReplaceRequest" "G"
    ∷ label "TradingSessionStatus" "h"
    ∷ label "OrderStatusRequest" "H"
    ∷ label "MassQuote" "i"
    ∷ label "BusinessMessageReject" "j"
    ∷ label "AllocationInstruction" "J"
    ∷ label "BidRequest" "k"
    ∷ label "ListCancelRequest" "K"
    ∷ label "BidResponse" "l"
    ∷ label "ListExecute" "L"
    ∷ label "ListStrikePrice" "m"
    ∷ label "ListStatusRequest" "M"
    ∷ label "XML_non_FIX" "n"
    ∷ label "ListStatus" "N"
    ∷ label "RegistrationInstructions" "o"
    ∷ label "RegistrationInstructionsResponse" "p"
    ∷ label "AllocationInstructionAck" "P"
    ∷ label "OrderMassCancelRequest" "q"
    ∷ label "DontKnowTradeDK" "Q"
    ∷ label "OrderMassCancelReport" "r"
    ∷ label "QuoteRequest" "R"
    ∷ label "NewOrderCross" "s"
    ∷ label "Quote" "S"
    ∷ label "CrossOrderCancelReplaceRequest" "t"
    ∷ label "SettlementInstructions" "T"
    ∷ label "CrossOrderCancelRequest" "u"
    ∷ label "SecurityTypeRequest" "v"
    ∷ label "MarketDataRequest" "V"
    ∷ label "SecurityTypes" "w"
    ∷ label "MarketDataSnapshotFullRefresh" "W"
    ∷ label "SecurityListRequest" "x"
    ∷ label "MarketDataIncrementalRefresh" "X"
    ∷ label "SecurityList" "y"
    ∷ label "MarketDataRequestReject" "Y"
    ∷ label "DerivativeSecurityListRequest" "z"
    ∷ label "QuoteCancel" "Z"
    ∷ label "INVALID" ""
    ∷ []
