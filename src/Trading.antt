-- ===== src/Trading.antt =====
-- The enumerations of app/trading/enums.py.
pub mod Risk
pub mod Service
pub mod Listing

pub data OrderSide : Type 0 where
  buy sell : OrderSide

pub data OrderType : Type 0 where
  market limit stop stop_limit take_profit trailing_stop : OrderType

pub data TimeInForce : Type 0 where
  gtc ioc fok : TimeInForce

-- `open` is a keyword here
pub data OrderStatus : Type 0 where
  pending opened partially_filled filled canceled rejected expired : OrderStatus
