-- ===== src/Fix/Tags/Fields.antt =====
-- The table FIELDTAG_LIST (common/FieldTag.hpp), in two parts, and the tags that the code names.

use fast_little_market.Common.{ℕ, List, ◌∷◌, []}
use fast_little_market.Fix.Tags.Table.{Label, label}

abbrev later_field_tags : List Label
later_field_tags =
    label "DKReason" "127"
    ∷ label "DeliverToCompID" "128"
    ∷ label "DeliverToSubID" "129"
    ∷ label "IOINaturalFlag" "130"
    ∷ label "QuoteReqID" "131"
    ∷ label "BidPx" "132"
    ∷ label "OfferPx" "133"
    ∷ label "BidSize" "134"
    ∷ label "OfferSize" "135"
    ∷ label "NoMiscFees" "136"
    ∷ label "MiscFeeAmt" "137"
    ∷ label "MiscFeeCurr" "138"
    ∷ label "MiscFeeType" "139"
    ∷ label "PrevClosePx" "140"
    ∷ label "ResetSeqNumFlag" "141"
    ∷ label "SenderLocationID" "142"
    ∷ label "TargetLocationID" "143"
    ∷ label "OnBehalfOfLocationID" "144"
    ∷ label "DeliverToLocationID" "145"
    ∷ label "NoRelatedSym" "146"
    ∷ label "Subject" "147"
    ∷ label "Headline" "148"
    ∷ label "URLLink" "149"
    ∷ label "ExecType" "150"
    ∷ label "LeavesQty" "151"
    ∷ label "CashOrderQty" "152"
    ∷ label "AllocAvgPx" "153"
    ∷ label "AllocNetMoney" "154"
    ∷ label "SettlCurrFxRate" "155"
    ∷ label "SettlCurrFxRateCalc" "156"
    ∷ label "NumDaysInterest" "157"
    ∷ label "AccruedInterestRate" "158"
    ∷ label "AccruedInterestAmt" "159"
    ∷ label "SettlInstMode" "160"
    ∷ label "AllocText" "161"
    ∷ label "SettlInstID" "162"
    ∷ label "SettlInstTransType" "163"
    ∷ label "EmailThreadID" "164"
    ∷ label "SettlInstSource" "165"
    ∷ label "SecurityType" "167"
    ∷ label "EffectiveTime" "168"
    ∷ label "StandInstDbType" "169"
    ∷ label "StandInstDbName" "170"
    ∷ label "StandInstDbID" "171"
    ∷ label "SettlDeliveryType" "172"
    ∷ label "BidSpotRate" "188"
    ∷ label "BidForwardPoints" "189"
    ∷ label "OfferSpotRate" "190"
    ∷ label "OfferForwardPoints" "191"
    ∷ label "OrderQty2" "192"
    ∷ label "SettlDate2" "193"
    ∷ label "LastSpotRate" "194"
    ∷ label "LastForwardPoints" "195"
    ∷ label "AllocLinkID" "196"
    ∷ label "AllocLinkType" "197"
    ∷ label "SecondaryOrderID" "198"
    ∷ label "NoIOIQualifiers" "199"
    ∷ label "MaturityMonthYear" "200"
    ∷ label "PutOrCall" "201"
    ∷ label "StrikePrice" "202"
    ∷ label "CoveredOrUncovered" "203"
    ∷ label "OptAttribute" "206"
    ∷ label "SecurityExchange" "207"
    ∷ label "NotifyBrokerOfCredit" "208"
    ∷ label "AllocHandlInst" "209"
    ∷ label "MaxShow" "210"
    ∷ label "PegOffsetValue" "211"
    ∷ label "XmlDataLen" "212"
    ∷ label "XmlData" "213"
    ∷ label "SettlInstRefID" "214"
    ∷ label "NoRoutingIDs" "215"
    ∷ label "RoutingType" "216"
    ∷ label "RoutingID" "217"
    ∷ label "Spread" "218"
    ∷ label "BenchmarkCurveCurrency" "220"
    ∷ label "BenchmarkCurveName" "221"
    ∷ label "BenchmarkCurvePoint" "222"
    ∷ label "CouponRate" "223"
    ∷ label "CouponPaymentDate" "224"
    ∷ label "IssueDate" "225"
    ∷ label "RepurchaseTerm" "226"
    ∷ label "RepurchaseRate" "227"
    ∷ label "Factor" "228"
    ∷ label "TradeOriginationDate" "229"
    ∷ label "ExDate" "230"
    ∷ label "ContractMultiplier" "231"
    ∷ label "NoStipulations" "232"
    ∷ label "StipulationType" "233"
    ∷ label "StipulationValue" "234"
    ∷ label "YieldType" "235"
    ∷ label "Yield" "236"
    ∷ label "TotalTakedown" "237"
    ∷ label "Concession" "238"
    ∷ label "RepoCollateralSecurityType" "239"
    ∷ label "RedemptionDate" "240"
    ∷ label "UnderlyingCouponRate" "245"
    ∷ label "UnderlyingContractMultiplier" "246"
    ∷ label "UnderlyingSecurityID" "309"
    ∷ label "UnderlyingSecurityIDSource" "305"
    ∷ label "UnderlyingSymbol" "311"
    ∷ label "TradingSessionID" "336"
    ∷ label "NoLegs" "555"
    ∷ label "LegCurrency" "556"
    ∷ label "LegPrice" "566"
    ∷ label "LegSymbol" "600"
    ∷ label "LegSecurityID" "602"
    ∷ label "LegSecurityIDSource" "603"
    ∷ label "TradingSessionSubID" "625"
    ∷ label "LegQty" "687"
    ∷ label "LegOrderQty" "685"
    ∷ label "LegRatioQty" "623"
    ∷ label "LegSide" "624"
    ∷ label "NoUnderlyings" "711"
    ∷ label "UnderlyingPx" "810"
    ∷ label "UnderlyingQty" "879"
    ∷ label "INVALID" ""
    ∷ []

abbrev pub field_tag_list : List Label
field_tag_list =
    label "Account" "1"
    ∷ label "AdvId" "2"
    ∷ label "AdvRefID" "3"
    ∷ label "AdvSide" "4"
    ∷ label "AdvTransType" "5"
    ∷ label "AvgPx" "6"
    ∷ label "BeginSeqNo" "7"
    ∷ label "BeginString" "8"
    ∷ label "BodyLength" "9"
    ∷ label "CheckSum" "10"
    ∷ label "ClOrdID" "11"
    ∷ label "Commission" "12"
    ∷ label "CommType" "13"
    ∷ label "CumQty" "14"
    ∷ label "Currency" "15"
    ∷ label "EndSeqNo" "16"
    ∷ label "ExecID" "17"
    ∷ label "ExecInst" "18"
    ∷ label "ExecRefID" "19"
    ∷ label "HandlInst" "21"
    ∷ label "SecurityIDSource" "22"
    ∷ label "IOIID" "23"
    ∷ label "IOIQltyInd" "25"
    ∷ label "IOIRefID" "26"
    ∷ label "IOIQty" "27"
    ∷ label "IOITransType" "28"
    ∷ label "LastCapacity" "29"
    ∷ label "LastMkt" "30"
    ∷ label "LastPx" "31"
    ∷ label "LastQty" "32"
    ∷ label "NoLinesOfText" "33"
    ∷ label "MsgSeqNum" "34"
    ∷ label "MsgType" "35"
    ∷ label "NewSeqNo" "36"
    ∷ label "OrderID" "37"
    ∷ label "OrderQty" "38"
    ∷ label "OrdStatus" "39"
    ∷ label "OrdType" "40"
    ∷ label "OrigClOrdID" "41"
    ∷ label "OrigTime" "42"
    ∷ label "PossDupFlag" "43"
    ∷ label "Price" "44"
    ∷ label "RefSeqNum" "45"
    ∷ label "SecurityID" "48"
    ∷ label "SenderCompID" "49"
    ∷ label "SenderSubID" "50"
    ∷ label "SendingTime" "52"
    ∷ label "Quantity" "53"
    ∷ label "Side" "54"
    ∷ label "Symbol" "55"
    ∷ label "TargetCompID" "56"
    ∷ label "TargetSubID" "57"
    ∷ label "Text" "58"
    ∷ label "TimeInForce" "59"
    ∷ label "TransactTime" "60"
    ∷ label "Urgency" "61"
    ∷ label "ValidUntilTime" "62"
    ∷ label "SettlType" "63"
    ∷ label "SettlDate" "64"
    ∷ label "SymbolSfx" "65"
    ∷ label "ListID" "66"
    ∷ label "ListSeqNo" "67"
    ∷ label "TotNoOrders" "68"
    ∷ label "ListExecInst" "69"
    ∷ label "AllocID" "70"
    ∷ label "AllocTransType" "71"
    ∷ label "RefAllocID" "72"
    ∷ label "NoOrders" "73"
    ∷ label "AvgPxPrecision" "74"
    ∷ label "TradeDate" "75"
    ∷ label "PositionEffect" "77"
    ∷ label "NoAllocs" "78"
    ∷ label "AllocAccount" "79"
    ∷ label "AllocShares" "80"
    ∷ label "ProcessCode" "81"
    ∷ label "NoRpts" "82"
    ∷ label "RptSeq" "83"
    ∷ label "CxlQty" "84"
    ∷ label "NoDlvyInst" "85"
    ∷ label "AllocStatus" "87"
    ∷ label "AllocRejCode" "88"
    ∷ label "Signature" "89"
    ∷ label "SecureDataLen" "90"
    ∷ label "SecureData" "91"
    ∷ label "SignatureLength" "93"
    ∷ label "EmailType" "94"
    ∷ label "RawDataLength" "95"
    ∷ label "RawData" "96"
    ∷ label "PossResend" "97"
    ∷ label "EncryptMethod" "98"
    ∷ label "StopPx" "99"
    ∷ label "ExDestination" "100"
    ∷ label "CxlRejReason" "102"
    ∷ label "OrdRejReason" "103"
    ∷ label "IOIQualifier" "104"
    ∷ label "Issuer" "106"
    ∷ label "SecurityDesc" "107"
    ∷ label "HeartBtInt" "108"
    ∷ label "ClientID" "109"
    ∷ label "MinQty" "110"
    ∷ label "MaxFloor" "111"
    ∷ label "TestReqID" "112"
    ∷ label "ReportToExch" "113"
    ∷ label "LocateReqd" "114"
    ∷ label "OnBehalfOfCompID" "115"
    ∷ label "OnBehalfOfSubID" "116"
    ∷ label "QuoteID" "117"
    ∷ label "NetMoney" "118"
    ∷ label "SettlCurrAmt" "119"
    ∷ label "SettlCurrency" "120"
    ∷ label "ForexReq" "121"
    ∷ label "OrigSendingTime" "122"
    ∷ label "GapFillFlag" "123"
    ∷ label "NoExecs" "124"
    ∷ label "ExpireTime" "126"
    ∷ later_field_tags

abbrev pub body_length_tag : ℕ
body_length_tag = 8

abbrev pub check_sum_tag : ℕ
check_sum_tag = 9

abbrev pub msg_type_tag : ℕ
msg_type_tag = 32

abbrev pub invalid_field_tag : ℕ
invalid_field_tag = 230
