-- ===== src/Js.antt =====
-- What the adapter uses of the JavaScript language: strings, number literals, objects and JSON.
pub mod Text
pub mod Number
pub mod Integer
pub mod Object
pub mod Json
pub mod Format
